-- ===== src/Worker/Answers.antt =====
-- Which code `CalculateOperation` of internal/worker/grpc_handler/worker_server.go answers with.
use ya_lyceum_go_project_fin.Prelude.{
  String, ◌≡◌, refl, ◌∙◌, ◌≢◌, ◌⊎◌, inl, inr, true, false, none, some, arith, eq_iff, [], ◌∷◌,
  str_eq, ap, Option-cases, Bool-cases,
}
use ya_lyceum_go_project_fin.Errors.{
  division_by_zero, unknown_operator, canceled, deadline_exceeded, Error, sentinel, wrap, status,
  invalid_argument, deadline_exceeded_code, is, text, sprint, err,
}
use ya_lyceum_go_project_fin.Grpc.{Rpc, message}
use ya_lyceum_go_project_fin.Float64.{ℤ, Arith}
use ya_lyceum_go_project_fin.Worker.Calculator.{CalculationTimeConfig, Sleep, calculate}
use ya_lyceum_go_project_fin.Worker.Server.{
  CalculateOperationRequest, Returned, answer, failure, calculate_operation,
}
use ya_lyceum_go_project_fin.Worker.Operators.{
  Operator, plus, minus, times, divided, power, negated, symbol, delay_of, value_of, symbol-cases,
}
use ya_lyceum_go_project_fin.Worker.Calculations.{
  valued, calculate-symbol, calculate_unknown, calculate-ok_iff,
}

-- `ctx.Err()` is one of the two errors of package context.
abbrev pub IsContextError : Error → Type 0
IsContextError e = (e ≡ sentinel canceled) ⊎ (e ≡ sentinel deadline_exceeded)

module _ {F : Type 0} (fl : Arith F) (rpc : Rpc) (cfg : CalculationTimeConfig) (sleep : Sleep) where
  abbrev required : String
  required = "operation_id и operation_symbol обязательны"

  -- What makes the server refuse a request as invalid.
  abbrev pub IsRefused : CalculateOperationRequest F → Type 0
  IsRefused req =
      (req.operation_id ≡ "")
      ⊎ (req.operation_symbol ≡ "")
      ⊎ ((o : Operator) → req.operation_symbol ≢ symbol o)
      ⊎ ((o : Operator) × (req.operation_symbol ≡ symbol o)
          × (value_of fl o req.operand_a req.operand_b ≡ none))

  -- The answers of the server, by cases on the request; the cases exclude one another.
  pub data Answers (req : CalculateOperationRequest F) (r : Returned F) : Type 0 where
    refused : IsRefused req → (m : String) → r.1 ≡ some (status invalid_argument m) → Answers req r
    late :
        (o : Operator) (v : F)
        → req.operation_id ≢ ""
        → req.operation_symbol ≡ symbol o
        → value_of fl o req.operand_a req.operand_b ≡ some v
        → sleep (delay_of cfg o) ≢ none
        → r.1 ≡ some (status deadline_exceeded_code "операция отменена или превышен таймаут")
        → Answers req r
    computed :
        (o : Operator) (v : F)
        → req.operation_id ≢ ""
        → req.operation_symbol ≡ symbol o
        → value_of fl o req.operand_a req.operand_b ≡ some v
        → sleep (delay_of cfg o) ≡ none
        → r ≡ (
          some (record { operation_id = req.operation_id; result = v; error_message = "" }),
          none,
        )
        → Answers req r

  module _ (req : CalculateOperationRequest F) where
    open req use {operation_symbol as s, operand_a as a, operand_b as b}

    calculate_operation_filled :
        str_eq req.operation_id "" ≡ false
        → str_eq s "" ≡ false
        → calculate_operation fl rpc cfg sleep req
          ≡ answer fl rpc req (calculate fl cfg rpc sleep s a b)
    unfolding calculate_operation
    calculate_operation_filled h k = rw (h, k)

    failure-wrap :
        (m : String) (x : Error)
        → IsContextError x
        → failure fl rpc (wrap m x)
          ≡ status deadline_exceeded_code "операция отменена или превышен таймаут"
    unfolding failure is
    failure-wrap m x h = ground arith

    answer-Answers :
        req.operation_id ≢ ""
        → ((d : ℤ) (e : Error) → sleep d ≡ some e → IsContextError e)
        → Answers req (answer fl rpc req (calculate fl cfg rpc sleep s a b))
    unfolding answer is message
    answer-Answers given ctx = elim (symbol-cases s) [
      | inr unknown ↦
          refused (inr (inr (inl unknown))) (sprint (text unknown_operator ∷ ": '" ∷ s ∷ "'" ∷ []))
            (rw (calculate_unknown fl rpc cfg sleep s a b unknown))
      | inl (o, e) ↦
          let calculated : calculate fl cfg rpc sleep s a b
              ≡ valued fl rpc cfg sleep (symbol o) (sleep (delay_of cfg o)) (value_of fl o a b) =
            rw e (calculate-symbol fl rpc cfg sleep o a b) in
          elim (Option-cases (value_of fl o a b)) [
            | inl no_value ↦
                refused (inr (inr (inr (o, e, no_value)))) (text division_by_zero)
                  (rw (calculated, no_value))
            | inr (v, value) ↦ elim (Option-cases (sleep (delay_of cfg o))) [
              | inl slept ↦ computed o v given e value slept (rw (calculated, value, slept))
              | inr (x, woken) ↦
                  late o v given e value (cc)
                    (rw (calculated, value, woken) (ap some (failure-wrap _ x (ctx _ x woken))))
            ]
          ]
    ]

    -- For every request `CalculateOperation` answers in one of three ways, which exclude one another:
    -- InvalidArgument if the id or the symbol is empty, the symbol names no operator or the operator
    -- has no value there (division by zero); DeadlineExceeded with a fixed text if the id is not empty,
    -- the operator has a value and the wait of its delay was cut short; and no error, with the
    -- request's id and the operator's value, if the id is not empty, the operator has a value and the
    -- wait ended by the timer. So it never answers Internal. The wait is
    -- assumed to be cut short by an error of package context only.
    pub calculate_operation-Answers :
        ((d : ℤ) (e : Error) → sleep d ≡ some e → IsContextError e)
        → Answers req (calculate_operation fl rpc cfg sleep req)
    calculate_operation-Answers ctx = elim (Bool-cases (str_eq req.operation_id "")) [
      | inl empty ↦
          refused (inl ((eq_iff _ _).0 empty)) required (unfold calculate_operation in rw empty)
      | inr given ↦ elim (Bool-cases (str_eq s "")) [
        | inl empty ↦
            refused (inr (inl ((eq_iff _ _).0 empty))) required
              (unfold calculate_operation in rw (given, empty))
        | inr named ↦
            rw (calculate_operation_filled given named)
              (answer-Answers (ground (arith, eq_iff req.operation_id "")) ctx)
      ]
    ]

    symbol-filled : (o : Operator) → str_eq (symbol o) "" ≡ false
    symbol-filled plus = refl
    symbol-filled minus = refl
    symbol-filled times = refl
    symbol-filled divided = refl
    symbol-filled power = refl
    symbol-filled negated = refl

    -- The answer with a value, from what it takes.
    pub calculate_operation-computed :
        (o : Operator) (v : F)
        → req.operation_id ≢ ""
        → s ≡ symbol o
        → value_of fl o a b ≡ some v
        → sleep (delay_of cfg o) ≡ none
        → calculate_operation fl rpc cfg sleep req ≡ (
          some (record { operation_id = req.operation_id; result = v; error_message = "" }),
          none,
        )
    unfolding answer
    calculate_operation-computed o v given e value slept =
        let filled : str_eq req.operation_id "" ≡ false =
          ground (arith, eq_iff req.operation_id "") in
        let named : str_eq s "" ≡ false = rw e (symbol-filled o) in
        rw (
          calculate_operation_filled filled named,
          (calculate-ok_iff fl rpc cfg sleep s a b v).1 (o, e, value, slept),
        )

    -- The answers that refuse a request with an id.
    pub calculate_operation_by_zero :
        req.operation_id ≢ ""
        → s ≡ "/"
        → fl.eq_zero b ≡ true
        → (calculate_operation fl rpc cfg sleep req).1
          ≡ some (status invalid_argument (text division_by_zero))
    unfolding answer
    calculate_operation_by_zero given e z =
        let filled : str_eq req.operation_id "" ≡ false =
          ground (arith, eq_iff req.operation_id "") in
        let named : str_eq s "" ≡ false = rw e in
        let calculated : calculate fl cfg rpc sleep s a b ≡ err (sentinel division_by_zero) =
          rw e (calculate-symbol fl rpc cfg sleep divided a b ∙ (rw z)) in
        rw (calculate_operation_filled filled named, calculated)

    pub calculate_operation_unknown :
        req.operation_id ≢ ""
        → s ≢ ""
        → ((o : Operator) → s ≢ symbol o)
        → (calculate_operation fl rpc cfg sleep req).1
          ≡ some (status invalid_argument (sprint (text unknown_operator ∷ ": '" ∷ s ∷ "'" ∷ [])))
    unfolding answer
    calculate_operation_unknown given called unknown =
        let filled : str_eq req.operation_id "" ≡ false =
          ground (arith, eq_iff req.operation_id "") in
        let named : str_eq s "" ≡ false = ground (arith, eq_iff s "") in
        rw (
          calculate_operation_filled filled named,
          calculate_unknown fl rpc cfg sleep s a b unknown,
        )
