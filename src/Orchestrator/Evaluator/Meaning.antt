-- ===== src/Orchestrator/Evaluator/Meaning.antt =====
-- What an expression denotes, stated over the operators of the worker, and that what `Evaluate`
-- returns without an error is that value, whatever the schedule, the cancellations and the network.
use ya_lyceum_go_project_fin.Prelude.{
  String, ◌≡◌, ◌⊎◌, refl, inl, inr, sym, subst, ◌∙◌, ap, true, false, Option, none, some, arith,
  eq_iff, str_eq, ◌∷◌, Bool-cases,
}
use ya_lyceum_go_project_fin.Errors.{Error, Result, ok, err}
use ya_lyceum_go_project_fin.Grpc.{Rpc}
use ya_lyceum_go_project_fin.Float64.{ℤ, Arith}
use ya_lyceum_go_project_fin.Worker.Calculator.{CalculationTimeConfig, Sleep}
use ya_lyceum_go_project_fin.Worker.Server.{
  CalculateOperationRequest, CalculateOperationResponse, Returned, calculate_operation,
}
use ya_lyceum_go_project_fin.Worker.Operators.{
  Operator, plus, minus, times, divided, power, negated, symbol, value_of,
}
use ya_lyceum_go_project_fin.Worker.Answers.{
  Answers, IsContextError, calculate_operation-Answers, refused, late, computed,
}
use ya_lyceum_go_project_fin.Orchestrator.Ast.{
  Node, integer, float, unary, binary, call, identifier, listed, other,
}
use ya_lyceum_go_project_fin.Orchestrator.Evaluator.{
  Place, Surroundings, request, read_reply, call_worker, checked, evaluate_unary, evaluate_binary,
  op_symbol, evaluate,
}

-- The operators as an expression spells them: `**` and `^` are one.
abbrev pub IsSpelling : String → Operator → Type 0
IsSpelling op o = (op ≡ symbol o) ⊎ (op ≡ "**") × (o ≡ power)

-- The value of an expression.
pub data Denotes {F : Type 0} (fl : Arith F) : Node F → F → Type 0 where
  an_integer : (n : ℤ) → Denotes fl (integer n) (fl.of_int n)
  a_float : (v : F) → Denotes fl (float v) v
  negation :
      {op : String} {x : Node F} {a : F}
      → op ≡ "-"
      → Denotes fl x a
      → Denotes fl (unary op x) (fl.neg a)
  operation :
      {op : String} {l r : Node F} {a b v : F} (o : Operator)
      → IsSpelling op o
      → Denotes fl l a
      → Denotes fl r b
      → value_of fl o a b ≡ some v
      → Denotes fl (binary op l r) v

symbol-power : (o : Operator) → "^" ≡ symbol o → o ≡ power
symbol-power plus e = cc ((eq_iff "^" "+").1 e)
symbol-power minus e = cc ((eq_iff "^" "-").1 e)
symbol-power times e = cc ((eq_iff "^" "*").1 e)
symbol-power divided e = cc ((eq_iff "^" "/").1 e)
symbol-power power e = refl
symbol-power negated e = cc ((eq_iff "^" "neg").1 e)

op_symbol-symbol : (o : Operator) → op_symbol (symbol o) ≡ symbol o
op_symbol-symbol plus = refl
op_symbol-symbol minus = refl
op_symbol-symbol times = refl
op_symbol-symbol divided = refl
op_symbol-symbol power = refl
op_symbol-symbol negated = refl

pub op_symbol-IsSpelling : (op : String) (o : Operator) → op_symbol op ≡ symbol o → IsSpelling op o
op_symbol-IsSpelling op o e = elim (Bool-cases (str_eq op "**")) [
  | inl doubled ↦ inr ((eq_iff op "**").0 doubled, symbol-power o (rw doubled at e))
  | inr plain ↦ inl (rw plain at e)
]

pub IsSpelling-op_symbol : (op : String) (o : Operator) → IsSpelling op o → op_symbol op ≡ symbol o
IsSpelling-op_symbol op o (inl e) = ap op_symbol e ∙ op_symbol-symbol o
IsSpelling-op_symbol op o (inr (e, e')) = ap op_symbol e ∙ ap symbol (sym e')

symbol-negated : (o : Operator) → "neg" ≡ symbol o → o ≡ negated
symbol-negated plus e = cc ((eq_iff "neg" "+").1 e)
symbol-negated minus e = cc ((eq_iff "neg" "-").1 e)
symbol-negated times e = cc ((eq_iff "neg" "*").1 e)
symbol-negated divided e = cc ((eq_iff "neg" "/").1 e)
symbol-negated power e = cc ((eq_iff "neg" "^").1 e)
symbol-negated negated e = refl

value_of_neg :
    {F : Type 0} (fl : Arith F) (o : Operator) (a b v : F)
    → "neg" ≡ symbol o
    → value_of fl o a b ≡ some v
    → fl.neg a ≡ v
value_of_neg fl o a b v e h = cc (subst (λ x. value_of fl x a b ≡ some v) (symbol-negated o e) h)

module _ {F : Type 0} (fl : Arith F) (rpc : Rpc) (cfg : CalculationTimeConfig) (w : Surroundings F)
    (sleep : Place → Sleep) where
  -- The client reports a response with no error only where the worker's server gave that response to
  -- this request with no error. It may fail in any other way.
  pub record IsHonest : Type 0 where
    pub from_worker :
        (p : Place) (req : CalculateOperationRequest F)
        → (w.reply p req).1 ≡ none
        → w.reply p req ≡ calculate_operation fl rpc cfg (sleep p) req
    pub from_context : (p : Place) (d : ℤ) (e : Error) → sleep p d ≡ some e → IsContextError e

  read_reply-ok :
      (p : Place) (op : String) (r : Returned F) (v : F)
      → read_reply fl rpc w p op r ≡ ok v
      → (res : CalculateOperationResponse F) × (r ≡ (some res, none)) × (res.result ≡ v)
  unfolding read_reply
  read_reply-ok p op (res, some e) v h = cc
  read_reply-ok p op (none, none) v h = cc
  read_reply-ok p op (some res, none) v h = (res, refl, ground arith)

  Answers-value :
      (p : Place) (req : CalculateOperationRequest F) (r : Returned F)
      (res : CalculateOperationResponse F)
      → Answers fl rpc cfg (sleep p) req r
      → r ≡ (some res, none)
      → (o : Operator) × (req.operation_symbol ≡ symbol o)
        × (value_of fl o req.operand_a req.operand_b ≡ some res.result)
  Answers-value p req r res (refused _ m e) h = cc (ap (λ x. x.1) h)
  Answers-value p req r res (late o v _ _ _ _ e) h = cc (ap (λ x. x.1) h)
  Answers-value p req r res (computed o v _ named value _ e) h = (o, named, ground arith)

  call_worker-value :
      IsHonest
      → (p : Place) (op : String) (a b v : F) → call_worker fl rpc w p op a b ≡ ok v
      → (o : Operator) × (op ≡ symbol o) × (value_of fl o a b ≡ some v)
  unfolding call_worker
  call_worker-value honest p op a b v h =
      let req : CalculateOperationRequest F = request fl rpc w p op a b in
      let (res, replied, result) = read_reply-ok p op (w.reply p req) v h in
      let answers = calculate_operation-Answers fl rpc cfg (sleep p) req (honest.from_context p) in
      let (o, named, value) =
        Answers-value p req _ res answers
          (sym (honest.from_worker p req (ap (λ r. r.1) replied)) ∙ replied) in
      (o, named, value ∙ ap some result)

  checked-ok : (o : Option Error) (r : Result F) (v : F) → checked rpc o r ≡ ok v → r ≡ ok v
  unfolding checked
  checked-ok none r v h = h
  checked-ok (some e) r v h = cc

  evaluate_unary-value :
      IsHonest
      → (p : Place) (op : String) (x : Node F) (r : Result F) (v : F)
      → ((a : F) → r ≡ ok a → Denotes fl x a)
      → evaluate_unary fl rpc w p op r ≡ ok v
      → Denotes fl (unary op x) v
  unfolding evaluate_unary
  evaluate_unary-value honest p op x (err e) v ih h = cc
  evaluate_unary-value honest p op x (ok a) v ih h = elim (Bool-cases (str_eq op "-")) [
    | inr differs ↦ cc (rw differs at h)
    | inl is_minus ↦
        let (o, named, value) = call_worker-value honest p "neg" a fl.zero v (rw is_minus at h) in
        subst (λ y. Denotes fl (unary op x) y) (value_of_neg fl o a fl.zero v named value)
          (negation ((eq_iff op "-").0 is_minus) (ih a refl))
  ]

  evaluate_binary-value :
      IsHonest
      → (p : Place) (op : String) (l r : Node F) (x y : Result F) (v : F)
      → ((a : F) → x ≡ ok a → Denotes fl l a)
      → ((b : F) → y ≡ ok b → Denotes fl r b)
      → evaluate_binary fl rpc w p (op_symbol op) x y ≡ ok v
      → Denotes fl (binary op l r) v
  unfolding evaluate_binary
  evaluate_binary-value honest p op l r (ok a) (ok b) v ihl ihr h =
      let (o, named, value) = call_worker-value honest p (op_symbol op) a b v h in
      operation o (op_symbol-IsSpelling op o named) (ihl a refl) (ihr b refl) value
  evaluate_binary-value honest p op l r (err e) (ok b) v ihl ihr h = cc
  evaluate_binary-value honest p op l r (ok a) (err f) v ihl ihr h = cc
  evaluate_binary-value honest p op l r (err e) (err f) v ihl ihr h = ground arith

  -- Whatever `Evaluate` returns without an error is the value of the expression, if the client is
  -- honest: under any schedule of the operands, any cancellation and any failing calls.
  pub evaluate_sound :
      IsHonest
      → (p : Place) (node : Node F) (v : F) → evaluate fl rpc w p node ≡ ok v
      → Denotes fl node v
  unfolding evaluate
  evaluate_sound honest p (integer n) v h =
      subst (λ y. Denotes fl (integer n) y) (cc (checked-ok (w.ctx_err p) _ v h)) (an_integer n)
  evaluate_sound honest p (float x) v h =
      subst (λ y. Denotes fl (float x) y) (cc (checked-ok (w.ctx_err p) _ v h)) (a_float x)
  evaluate_sound honest p (unary op x) v h =
      evaluate_unary-value honest p op x (evaluate fl rpc w (false ∷ p) x) v
        (evaluate_sound honest (false ∷ p) x) (checked-ok (w.ctx_err p) _ v h)
  evaluate_sound honest p (binary op l r) v h =
      evaluate_binary-value honest p op l r (evaluate fl rpc w (false ∷ p) l)
        (evaluate fl rpc w (true ∷ p) r) v (evaluate_sound honest (false ∷ p) l)
        (evaluate_sound honest (true ∷ p) r) (checked-ok (w.ctx_err p) _ v h)
  evaluate_sound honest p (call callee n) v h = cc (checked-ok (w.ctx_err p) _ v h)
  evaluate_sound honest p (identifier x) v h = cc (checked-ok (w.ctx_err p) _ v h)
  evaluate_sound honest p (listed k) v h = cc (checked-ok (w.ctx_err p) _ v h)
  evaluate_sound honest p (other x) v h = cc (checked-ok (w.ctx_err p) _ v h)
