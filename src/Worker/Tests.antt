-- ===== src/Worker/Tests.antt =====
-- Runs of the worker at concrete requests, and the theorems at them.
use ya_lyceum_go_project_fin.Prelude.{String, ◌≡◌, refl, ◌↔◌, none, some}
use ya_lyceum_go_project_fin.Errors.{
  canceled, sentinel, status, invalid_argument, deadline_exceeded_code, ok,
}
use ya_lyceum_go_project_fin.Grpc.Sample.{sample_rpc}
use ya_lyceum_go_project_fin.Float64.{pos, ℤ}
use ya_lyceum_go_project_fin.Float64.Sample.{Num, fin, sample}
use ya_lyceum_go_project_fin.Worker.Calculator.{calculate}
use ya_lyceum_go_project_fin.Worker.Sample.{delays, timer}
use ya_lyceum_go_project_fin.Worker.Server.{CalculateOperationRequest, calculate_operation}
use ya_lyceum_go_project_fin.Worker.Operators.{Operator, symbol, value_of, delay_of}
use ya_lyceum_go_project_fin.Worker.Calculations.{calculate-ok_iff}
use ya_lyceum_go_project_fin.Worker.Answers.{Answers, calculate_operation-Answers}

abbrev ask : String → String → ℤ → ℤ → CalculateOperationRequest Num
ask id s a b = record {
  operation_id = id;
  operation_symbol = s;
  operand_a = fin a;
  operand_b = fin b;
}

calculate_tests :
    (calculate sample delays sample_rpc timer "-" (fin (pos 7)) (fin (pos 5)) ≡ ok (fin (pos 2)))
    × (calculate sample delays sample_rpc timer "/" (fin (pos 7)) (fin (pos 2)) ≡ ok (fin (pos 3)))
unfolding calculate
calculate_tests = (refl, refl)

server_tests :
    ((calculate_operation sample sample_rpc delays timer (ask "1" "/" (pos 7) (pos 0))).1
      ≡ some (status invalid_argument "деление на ноль"))
    × ((calculate_operation sample sample_rpc delays timer (ask "1" "%" (pos 7) (pos 2))).1
        ≡ some (status invalid_argument "неизвестный оператор: '%'"))
    × ((calculate_operation sample sample_rpc delays
          (λ d. some (sentinel canceled))
          (ask "1" "+" (pos 7) (pos 2))).1
        ≡ some (status deadline_exceeded_code "операция отменена или превышен таймаут"))
unfolding calculate_operation calculate
server_tests = (refl, refl, refl)

calculate-ok_iff_example :
    (calculate sample delays sample_rpc timer "/" (fin (pos 7)) (fin (pos 2)) ≡ ok (fin (pos 3)))
    ↔ ((o : Operator) × ("/" ≡ symbol o)
        × (value_of sample o (fin (pos 7)) (fin (pos 2)) ≡ some (fin (pos 3)))
        × (timer (delay_of delays o) ≡ none))
calculate-ok_iff_example =
    calculate-ok_iff sample sample_rpc delays timer "/" (fin (pos 7)) (fin (pos 2)) (fin (pos 3))

calculate_operation-Answers_example :
    Answers sample sample_rpc delays timer
      (ask "1" "neg" (pos 7) (pos 0))
      (calculate_operation sample sample_rpc delays timer (ask "1" "neg" (pos 7) (pos 0)))
calculate_operation-Answers_example =
    calculate_operation-Answers sample sample_rpc delays timer (ask "1" "neg" (pos 7) (pos 0))
      (λ d e h. cc)
