-- ===== src/Orchestrator/Evaluator/Order.antt =====
-- The schedule of the operands does not change a value, and what has a value is of the supported
-- node types.
use ya_lyceum_go_project_fin.Prelude.{
  String, ◌≡◌, refl, Bool, true, false, Option, none, some, arith, ◌∷◌, eq_iff,
}
use ya_lyceum_go_project_fin.Errors.{Error, Result, ok, err}
use ya_lyceum_go_project_fin.Grpc.{Rpc}
use ya_lyceum_go_project_fin.Float64.{Arith}
use ya_lyceum_go_project_fin.Orchestrator.Ast.{
  Node, integer, float, unary, binary, call, identifier, listed, other,
}
use ya_lyceum_go_project_fin.Orchestrator.Evaluator.{
  Place, Surroundings, checked, evaluate_unary, evaluate_binary, op_symbol, evaluate,
}

-- The nodes that `Evaluate` supports, down to the leaves.
abbrev pub IsSupported : {F : Type 0} → Node F → Type 0
IsSupported (integer n) = Unit
IsSupported (float v) = Unit
IsSupported (unary op x) = (op ≡ "-") × IsSupported x
IsSupported (binary op l r) = IsSupported l × IsSupported r
IsSupported _ = ⊥

module _ {F : Type 0} (fl : Arith F) (rpc : Rpc) (w : Surroundings F)
    (schedule : Place → Bool) where
  abbrev pub rescheduled : Surroundings F
  rescheduled = record w { right_first = schedule }

  evaluate_binary-rescheduled :
      (p : Place) (op : String) (x y x' y' : Result F) (v : F)
      → ((a : F) → x ≡ ok a → x' ≡ ok a)
      → ((b : F) → y ≡ ok b → y' ≡ ok b)
      → evaluate_binary fl rpc w p op x y ≡ ok v
      → evaluate_binary fl rpc rescheduled p op x' y' ≡ ok v
  unfolding evaluate_binary
  evaluate_binary-rescheduled p op (ok a) (ok b) x' y' v hx hy h = rw (hx a refl, hy b refl) h
  evaluate_binary-rescheduled p op (err e) (ok b) x' y' v hx hy h = cc
  evaluate_binary-rescheduled p op (ok a) (err f) x' y' v hx hy h = cc
  evaluate_binary-rescheduled p op (err e) (err f) x' y' v hx hy h = ground arith

  evaluate_unary-rescheduled :
      (p : Place) (op : String) (x x' : Result F) (v : F)
      → ((a : F) → x ≡ ok a → x' ≡ ok a)
      → evaluate_unary fl rpc w p op x ≡ ok v
      → evaluate_unary fl rpc rescheduled p op x' ≡ ok v
  unfolding evaluate_unary
  evaluate_unary-rescheduled p op (ok a) x' v hx h = rw (hx a refl) h
  evaluate_unary-rescheduled p op (err e) x' v hx h = cc

  checked_rescheduled :
      (o : Option Error) (r r' : Result F) (v : F)
      → (r ≡ ok v → r' ≡ ok v)
      → checked rpc o r ≡ ok v
      → checked rpc o r' ≡ ok v
  unfolding checked
  checked_rescheduled none r r' v f h = f h
  checked_rescheduled (some e) r r' v f h = h

  -- A value found under one order of the operands' goroutines is found under every other order, where
  -- the cancellations and the replies are the same.
  pub evaluate-rescheduled :
      (p : Place) (node : Node F) (v : F)
      → evaluate fl rpc w p node ≡ ok v
      → evaluate fl rpc rescheduled p node ≡ ok v
  unfolding evaluate
  evaluate-rescheduled p (unary op x) v =
      checked_rescheduled (w.ctx_err p) _ _ v
        (evaluate_unary-rescheduled p op _ _ v (evaluate-rescheduled (false ∷ p) x))
  evaluate-rescheduled p (binary op l r) v = checked_rescheduled (w.ctx_err p) _ _ v (
      evaluate_binary-rescheduled p (op_symbol op) _ _ _ _ v (evaluate-rescheduled (false ∷ p) l)
        (evaluate-rescheduled (true ∷ p) r))
  evaluate-rescheduled p _ v = λ h. h

module _ {F : Type 0} (fl : Arith F) (rpc : Rpc) (w : Surroundings F) where
  checked-IsSupported :
      (o : Option Error) (r : Result F) (v : F) (P : Type 0)
      → (r ≡ ok v → P)
      → checked rpc o r ≡ ok v
      → P
  unfolding checked
  checked-IsSupported none r v P f h = f h
  checked-IsSupported (some e) r v P f h = cc

  evaluate_unary-IsSupported :
      (p : Place) (op : String) (x : Node F) (r : Result F) (v : F)
      → ((a : F) → r ≡ ok a → IsSupported x)
      → evaluate_unary fl rpc w p op r ≡ ok v
      → IsSupported (unary op x)
  unfolding evaluate_unary
  evaluate_unary-IsSupported p op x (err e) v ih h = cc
  evaluate_unary-IsSupported p op x (ok a) v ih h = (ground (arith, eq_iff op "-"), ih a refl)

  evaluate_binary-IsSupported :
      (p : Place) (op sym_op : String) (l r : Node F) (x y : Result F) (v : F)
      → ((a : F) → x ≡ ok a → IsSupported l)
      → ((b : F) → y ≡ ok b → IsSupported r)
      → evaluate_binary fl rpc w p sym_op x y ≡ ok v
      → IsSupported (binary op l r)
  unfolding evaluate_binary
  evaluate_binary-IsSupported p op s l r (ok a) (ok b) v hl hr h = (hl a refl, hr b refl)
  evaluate_binary-IsSupported p op s l r (err e) (ok b) v hl hr h = cc
  evaluate_binary-IsSupported p op s l r (ok a) (err f) v hl hr h = cc
  evaluate_binary-IsSupported p op s l r (err e) (err f) v hl hr h = ground arith

  -- An expression with a node of an unsupported type anywhere, or with a unary operator other than
  -- `-`, gets no value, whatever the workers answer.
  pub evaluate-IsSupported :
      (p : Place) (node : Node F) (v : F) → evaluate fl rpc w p node ≡ ok v → IsSupported node
  unfolding evaluate
  evaluate-IsSupported p (integer n) v h = tt
  evaluate-IsSupported p (float x) v h = tt
  evaluate-IsSupported p (unary op x) v h =
      checked-IsSupported (w.ctx_err p) _ v _
        (evaluate_unary-IsSupported p op x _ v (evaluate-IsSupported (false ∷ p) x)) h
  evaluate-IsSupported p (binary op l r) v h =
      checked-IsSupported (w.ctx_err p) _ v _
        (evaluate_binary-IsSupported p op (op_symbol op) l r _ _ v
          (evaluate-IsSupported (false ∷ p) l) (evaluate-IsSupported (true ∷ p) r))
        h
  evaluate-IsSupported p (call callee n) v h = checked-IsSupported (w.ctx_err p) _ v _ (λ e. cc e) h
  evaluate-IsSupported p (identifier x) v h = checked-IsSupported (w.ctx_err p) _ v _ (λ e. cc e) h
  evaluate-IsSupported p (listed k) v h = checked-IsSupported (w.ctx_err p) _ v _ (λ e. cc e) h
  evaluate-IsSupported p (other x) v h = checked-IsSupported (w.ctx_err p) _ v _ (λ e. cc e) h
