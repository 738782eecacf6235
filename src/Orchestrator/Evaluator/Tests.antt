-- ===== src/Orchestrator/Evaluator/Tests.antt =====
-- Runs of the evaluator over the worker, and the theorems at concrete expressions.
use ya_lyceum_go_project_fin.Prelude.{
  ◌≤◌, String, ◌≡◌, refl, ◌≢◌, ◌↔◌, ◌⊎◌, inr, Bool, true, false, none, some, [], ◌∷◌, arith, eq_iff,
}
use ya_lyceum_go_project_fin.Errors.{
  sentinel, new, wrap, status, unsupported_node_type, evaluation_timeout, deadline_exceeded_code,
  Result, ok, err,
}
use ya_lyceum_go_project_fin.Grpc.Sample.{sample_rpc}
use ya_lyceum_go_project_fin.Float64.{pos, negsuc}
use ya_lyceum_go_project_fin.Float64.Sample.{Num, fin, sample}
use ya_lyceum_go_project_fin.Worker.Sample.{delays, timer}
use ya_lyceum_go_project_fin.Worker.Operators.{
  Operator, plus, minus, times, divided, power, negated, symbol,
}
use ya_lyceum_go_project_fin.Orchestrator.Ast.{binary, call, identifier}
use ya_lyceum_go_project_fin.Orchestrator.Evaluator.{
  Surroundings, Joined, failed, joined, left_failure, evaluate,
}
use ya_lyceum_go_project_fin.Orchestrator.Evaluator.Join.{
  JoinState, start, send_left, JoinStep, left_sends, Reaches, at_start, after, received,
}
use ya_lyceum_go_project_fin.Orchestrator.Evaluator.Join.Laws.{received_iff}
use ya_lyceum_go_project_fin.Orchestrator.Evaluator.Join.Termination.{join_terminates, run_length}
use ya_lyceum_go_project_fin.Orchestrator.Evaluator.Meaning.{
  Denotes, an_integer, operation, evaluate_sound,
}
use ya_lyceum_go_project_fin.Orchestrator.Evaluator.Complete.{evaluate_complete}
use ya_lyceum_go_project_fin.Orchestrator.Evaluator.Order.{evaluate-rescheduled, rescheduled}
use ya_lyceum_go_project_fin.Orchestrator.Evaluator.Failures.{IsRelaying, evaluate_by_zero}
use ya_lyceum_go_project_fin.Orchestrator.Evaluator.Sample.{
  calm, calm-IsHonest, calm-IsReliable, num, product, evaluator,
}

evaluate_tests :
    (evaluate sample sample_rpc calm [] product ≡ ok (fin (negsuc 15)))
    × (evaluate sample sample_rpc calm [] (binary "/" (num 1) (num 0))
        ≡ err (new "деление на ноль"))
    × (evaluate sample sample_rpc calm [] (binary "%" (num 5) (num 3))
        ≡ err (new "неизвестный оператор: '%'"))
    × (evaluate sample sample_rpc calm [] (call (identifier "max") 12)
        ≡ err (
            wrap "неподдерживаемый тип узла AST: вызов функции 'max(12 арг.)' пока не реализован"
              (sentinel unsupported_node_type)))
unfolding evaluator
evaluate_tests = (refl, refl, refl, refl)

-- A call that times out.
abbrev slow : Surroundings Num
slow = record calm { reply = λ p req. (none, some (status deadline_exceeded_code "late")) }

evaluate_late :
    evaluate sample sample_rpc slow [] (binary "+" (num 1) (num 0))
    ≡ err (
        wrap "таймаут/отмена операции '+': превышен таймаут вычисления выражения"
          (sentinel evaluation_timeout))
unfolding evaluator
evaluate_late = refl

calm-IsRelaying : IsRelaying sample sample_rpc delays calm (λ p. timer)
calm-IsRelaying = record { running = λ p. refl; identified = λ p e. cc; relayed = λ p req m h. h }

evaluate_sound_example : Denotes sample product (fin (negsuc 15))
evaluate_sound_example =
    evaluate_sound sample sample_rpc delays calm (λ p. timer) calm-IsHonest [] product
      (fin (negsuc 15)) evaluate_tests.0

evaluate_complete_example :
    evaluate sample sample_rpc calm [] (binary "**" (num 3) (num 2)) ≡ ok (fin (pos 9))
evaluate_complete_example =
    evaluate_complete sample sample_rpc delays calm (λ p. timer) calm-IsReliable []
      (binary "**" (num 3) (num 2)) (fin (pos 9))
      (operation power (inr (refl, refl)) (an_integer (pos 3)) (an_integer (pos 2)) refl)

evaluate-rescheduled_example :
    evaluate sample sample_rpc (rescheduled sample sample_rpc calm (λ p. true)) [] product
    ≡ ok (fin (negsuc 15))
evaluate-rescheduled_example =
    evaluate-rescheduled sample sample_rpc calm (λ p. true) [] product (fin (negsuc 15))
      evaluate_tests.0

one : evaluate sample sample_rpc calm (false ∷ []) (num 1) ≡ ok (fin (pos 1))
unfolding evaluator
one = refl

zero_right : evaluate sample sample_rpc calm (true ∷ []) (num 0) ≡ ok (fin (pos 0))
unfolding evaluator
zero_right = refl

evaluate_by_zero_example :
    evaluate sample sample_rpc calm [] (binary "/" (num 1) (num 0)) ≡ err (new "деление на ноль")
evaluate_by_zero_example =
    evaluate_by_zero sample sample_rpc delays calm (λ p. timer) calm-IsRelaying [] (num 1) (num 0)
      (fin (pos 1)) (fin (pos 0)) one zero_right refl

percent_unknown : (o : Operator) → ◌≢◌ {A = String} "%" (symbol o)
percent_unknown plus e = cc ((eq_iff "%" "+").1 e)
percent_unknown minus e = cc ((eq_iff "%" "-").1 e)
percent_unknown times e = cc ((eq_iff "%" "*").1 e)
percent_unknown divided e = cc ((eq_iff "%" "/").1 e)
percent_unknown power e = cc ((eq_iff "%" "^").1 e)
percent_unknown negated e = cc ((eq_iff "%" "neg").1 e)

abbrev refused : Result Num
refused = err (new "деление на ноль")

abbrev joined_example : Joined Num
joined_example = failed (left_failure sample_rpc "+" (new "деление на ноль"))

received_iff_example :
    ((s : JoinState Num) × Reaches sample_rpc (fin (pos 0)) "+" refused (ok (fin (pos 1))) s
      × (s.caller ≡ received joined_example))
    ↔ ((rf : Bool) × (joined_example ≡ joined sample_rpc rf "+" refused (ok (fin (pos 1)))))
received_iff_example =
    received_iff sample_rpc (fin (pos 0)) "+" refused (ok (fin (pos 1))) joined_example

abbrev first_send : JoinState Num
first_send = send_left sample_rpc "+" refused start

abbrev first_run : Reaches sample_rpc (fin (pos 0)) "+" refused (ok (fin (pos 1))) first_send
first_run = after at_start (left_sends refl (omega arith) refl)

join_terminates_example :
    (((j : Joined Num) × (first_send.caller ≡ received j))
      ⊎ ((t : JoinState Num) × JoinStep sample_rpc
            (fin (pos 0))
            "+"
            refused
            (ok (fin (pos 1)))
            first_send
            t))
    × (run_length sample_rpc (fin (pos 0)) "+" refused (ok (fin (pos 1))) first_run ≤ 6)
    × ((j : Joined Num)
        → first_send.caller ≡ received j
        → run_length sample_rpc (fin (pos 0)) "+" refused (ok (fin (pos 1))) first_run ≡ 6)
join_terminates_example =
    join_terminates sample_rpc (fin (pos 0)) "+" refused (ok (fin (pos 1))) first_run
