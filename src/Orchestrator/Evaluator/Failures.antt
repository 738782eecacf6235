-- ===== src/Orchestrator/Evaluator/Failures.antt =====
-- What `Evaluate` reports where the worker refuses an operation.
use ya_lyceum_go_project_fin.Prelude.{String, ◌≡◌, refl, ◌≢◌, true, false, none, some, [], ◌∷◌}
use ya_lyceum_go_project_fin.Errors.{
  division_by_zero, unknown_operator, new, status, invalid_argument, text, sprint, ok, err,
}
use ya_lyceum_go_project_fin.Grpc.{Rpc}
use ya_lyceum_go_project_fin.Float64.{Arith}
use ya_lyceum_go_project_fin.Worker.Calculator.{CalculationTimeConfig, Sleep}
use ya_lyceum_go_project_fin.Worker.Server.{
  CalculateOperationRequest, Returned, calculate_operation,
}
use ya_lyceum_go_project_fin.Worker.Operators.{Operator, symbol}
use ya_lyceum_go_project_fin.Worker.Answers.{
  calculate_operation_by_zero, calculate_operation_unknown,
}
use ya_lyceum_go_project_fin.Orchestrator.Ast.{Node, binary}
use ya_lyceum_go_project_fin.Orchestrator.Evaluator.{
  Place, Surroundings, request, grpc_failure, read_reply, op_symbol, evaluate,
}

module _ {F : Type 0} (fl : Arith F) (rpc : Rpc) (cfg : CalculationTimeConfig) (w : Surroundings F)
    (sleep : Place → Sleep) where
  -- Nothing is cancelled, `uuid.NewString` gives no empty text, and a refusal by the worker's server
  -- reaches the orchestrator with its code and message.
  pub record IsRelaying : Type 0 where
    pub running : (p : Place) → w.ctx_err p ≡ none
    pub identified : (p : Place) → w.operation_id p ≢ ""
    pub relayed :
        (p : Place) (req : CalculateOperationRequest F) (m : String)
        → (calculate_operation fl rpc cfg (sleep p) req).1 ≡ some (status invalid_argument m)
        → (w.reply p req).1 ≡ some (status invalid_argument m)

  read_reply_refused :
      (p : Place) (op : String) (r : Returned F) (m : String)
      → r.1 ≡ some (status invalid_argument m)
      → read_reply fl rpc w p op r ≡ err (new m)
  unfolding read_reply
  read_reply_refused p op (res, some e) m h =
      let e' : e ≡ status invalid_argument m = cc in rw (e', rpc.from_error-status, grpc_failure)
  read_reply_refused p op (res, none) m h = cc

  evaluate_refused :
      IsRelaying
      → (p : Place) (op : String) (l r : Node F) (a b : F) (m : String)
      → evaluate fl rpc w (false ∷ p) l ≡ ok a
      → evaluate fl rpc w (true ∷ p) r ≡ ok b
      → (calculate_operation fl rpc cfg (sleep p) (request fl rpc w p (op_symbol op) a b)).1
        ≡ some (status invalid_argument m)
      → evaluate fl rpc w p (binary op l r) ≡ err (new m)
  unfolding evaluate
  evaluate_refused relay p op l r a b m hl hr refused =
      rw (relay.running p, hl, hr)
        (read_reply_refused p (op_symbol op) (w.reply p (request fl rpc w p (op_symbol op) a b)) m
          (relay.relayed p (request fl rpc w p (op_symbol op) a b) m refused))

  -- If the context is not done and the refusals of the worker arrive, a division whose operands have
  -- values, the right one 0, fails with the worker's text for it, and with no other words added.
  pub evaluate_by_zero :
      IsRelaying
      → (p : Place) (l r : Node F) (a b : F) → evaluate fl rpc w (false ∷ p) l ≡ ok a
      → evaluate fl rpc w (true ∷ p) r ≡ ok b
      → fl.eq_zero b ≡ true
      → evaluate fl rpc w p (binary "/" l r) ≡ err (new "деление на ноль")
  evaluate_by_zero relay p l r a b hl hr z =
      evaluate_refused relay p "/" l r a b (text division_by_zero) hl hr (
        calculate_operation_by_zero fl rpc cfg (sleep p) (request fl rpc w p "/" a b)
          (relay.identified p) refl z)

  -- If the context is not done and the refusals of the worker arrive, a binary operator that the worker
  -- does not know, such as `%` or `==`, fails by name, whatever the values of its operands.
  pub evaluate_unknown :
      IsRelaying
      → (p : Place) (op : String) (l r : Node F) (a b : F) → op_symbol op ≢ ""
      → ((o : Operator) → op_symbol op ≢ symbol o)
      → evaluate fl rpc w (false ∷ p) l ≡ ok a
      → evaluate fl rpc w (true ∷ p) r ≡ ok b
      → evaluate fl rpc w p (binary op l r)
        ≡ err (new (sprint (text unknown_operator ∷ ": '" ∷ op_symbol op ∷ "'" ∷ [])))
  evaluate_unknown relay p op l r a b called unknown hl hr =
      evaluate_refused relay p op l r a b _ hl hr (
        calculate_operation_unknown fl rpc cfg (sleep p) (request fl rpc w p (op_symbol op) a b)
          (relay.identified p) called unknown)
