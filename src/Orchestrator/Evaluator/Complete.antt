-- ===== src/Orchestrator/Evaluator/Complete.antt =====
-- That `Evaluate` finds the value of an expression that has one, where nothing is cancelled and the
-- calls get through; with what a division by zero is reported as.
use ya_lyceum_go_project_fin.Prelude.{String, ◌≡◌, refl, ◌≢◌, ◌∙◌, ap, true, false, none, some, ◌∷◌}
use ya_lyceum_go_project_fin.Errors.{ok}
use ya_lyceum_go_project_fin.Grpc.{Rpc}
use ya_lyceum_go_project_fin.Float64.{ℤ, Arith}
use ya_lyceum_go_project_fin.Worker.Calculator.{CalculationTimeConfig, Sleep}
use ya_lyceum_go_project_fin.Worker.Server.{CalculateOperationRequest, calculate_operation}
use ya_lyceum_go_project_fin.Worker.Operators.{Operator, negated, symbol, value_of, delay_of}
use ya_lyceum_go_project_fin.Worker.Answers.{calculate_operation-computed}
use ya_lyceum_go_project_fin.Orchestrator.Ast.{Node}
use ya_lyceum_go_project_fin.Orchestrator.Evaluator.{
  Place, Surroundings, request, call_worker, evaluate,
}
use ya_lyceum_go_project_fin.Orchestrator.Evaluator.Meaning.{
  IsSpelling-op_symbol, Denotes, an_integer, a_float, negation, operation,
}

module _ {F : Type 0} (fl : Arith F) (rpc : Rpc) (cfg : CalculationTimeConfig) (w : Surroundings F)
    (sleep : Place → Sleep) where
  -- Nothing is cancelled, the timers end the workers' waits, `uuid.NewString` gives no empty text, and
  -- an answer that the worker gives with no error reaches the orchestrator as it is.
  pub record IsReliable : Type 0 where
    pub running : (p : Place) → w.ctx_err p ≡ none
    pub slept : (p : Place) (d : ℤ) → sleep p d ≡ none
    pub identified : (p : Place) → w.operation_id p ≢ ""
    pub delivered :
        (p : Place) (req : CalculateOperationRequest F)
        → (calculate_operation fl rpc cfg (sleep p) req).1 ≡ none
        → w.reply p req ≡ calculate_operation fl rpc cfg (sleep p) req

  call_worker_complete :
      IsReliable
      → (p : Place) (o : Operator) (s : String) (a b v : F) → s ≡ symbol o
      → value_of fl o a b ≡ some v
      → call_worker fl rpc w p s a b ≡ ok v
  unfolding call_worker
  call_worker_complete r p o s a b v e value =
      let req : CalculateOperationRequest F = request fl rpc w p s a b in
      let answered =
        calculate_operation-computed fl rpc cfg (sleep p) req o v (r.identified p) e value
          (r.slept p (delay_of cfg o)) in
      rw (r.delivered p req (ap (λ x. x.1) answered) ∙ answered)

  -- If nothing fails on the way, an expression with a value is evaluated to it.
  pub evaluate_complete :
      IsReliable
      → (p : Place) (node : Node F) (v : F) → Denotes fl node v
      → evaluate fl rpc w p node ≡ ok v
  unfolding evaluate
  evaluate_complete r p node v (an_integer n) = rw (r.running p)
  evaluate_complete r p node v (a_float x) = rw (r.running p)
  evaluate_complete r p node v (negation {x = x} {a = a} e d) =
      rw (r.running p, e, evaluate_complete r (false ∷ p) x a d)
        (call_worker_complete r p negated "neg" a fl.zero v refl refl)
  evaluate_complete r p node v (operation {l = l} {r = m} {a = a} {b = b} o e d d' value) =
      rw (r.running p, evaluate_complete r (false ∷ p) l a d, evaluate_complete r (true ∷ p) m b d')
        (call_worker_complete r p o _ a b v (IsSpelling-op_symbol _ o e) value)
