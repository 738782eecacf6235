-- ===== src/Worker/Calculations.antt =====
-- When `Calculate` of internal/worker/service/calculator.go returns a value.
use ya_lyceum_go_project_fin.Prelude.{
  String, ◌≡◌, refl, sym, ◌∙◌, ◌≢◌, ◌↔◌, ◌⊎◌, inl, inr, Option, none, some, arith, eq_iff, [], ◌∷◌,
}
use ya_lyceum_go_project_fin.Errors.{
  division_by_zero, unknown_operator, Error, sentinel, wrap, text, sprint, Result, ok, err,
}
use ya_lyceum_go_project_fin.Grpc.{Rpc, message}
use ya_lyceum_go_project_fin.Float64.{Arith}
use ya_lyceum_go_project_fin.Worker.Calculator.{CalculationTimeConfig, Sleep, calculate}
use ya_lyceum_go_project_fin.Worker.Operators.{
  Operator, plus, minus, times, divided, power, negated, symbol, delay_of, value_of, symbol-cases,
}

module _ {F : Type 0} (fl : Arith F) (rpc : Rpc) (cfg : CalculationTimeConfig) (sleep : Sleep) where
  -- What is left of `Calculate` once the operator has a value or has none.
  abbrev pub waited : String → Option Error → F → Result F
  waited s none v = ok v
  waited s (some e) v =
      err (wrap (sprint ("вычисление '" ∷ s ∷ "' отменено: " ∷ message rpc e ∷ [])) e)

  abbrev pub valued : String → Option Error → Option F → Result F
  valued s asleep none = err (sentinel division_by_zero)
  valued s asleep (some v) = waited s asleep v

  pub calculate-symbol :
      (o : Operator) (a b : F)
      → calculate fl cfg rpc sleep (symbol o) a b
        ≡ valued (symbol o) (sleep (delay_of cfg o)) (value_of fl o a b)
  unfolding calculate
  calculate-symbol plus a b = ground arith
  calculate-symbol minus a b = ground arith
  calculate-symbol times a b = ground arith
  calculate-symbol divided a b = ground arith
  calculate-symbol power a b = ground arith
  calculate-symbol negated a b = ground arith

  pub calculate_unknown :
      (s : String) (a b : F)
      → ((o : Operator) → s ≢ symbol o)
      → calculate fl cfg rpc sleep s a b
        ≡ err (
            wrap
              (sprint (text unknown_operator ∷ ": '" ∷ s ∷ "'" ∷ []))
              (sentinel unknown_operator))
  unfolding calculate
  calculate_unknown s a b h = ground (
    arith,
    eq_iff s "+",
    eq_iff s "-",
    eq_iff s "*",
    eq_iff s "/",
    eq_iff s "^",
    eq_iff s "neg",
    h plus,
    h minus,
    h times,
    h divided,
    h power,
    h negated,
  )

  valued-ok :
      (s : String) (asleep : Option Error) (value : Option F) (v : F)
      → valued s asleep value ≡ ok v
      → (value ≡ some v) × (asleep ≡ none)
  valued-ok s none none v h = cc
  valued-ok s (some e) none v h = cc
  valued-ok s none (some w) v h = (cc, refl)
  valued-ok s (some e) (some w) v h = cc

  -- `Calculate` returns a value exactly when the text is an operator, the operator has a value at the
  -- operands, and the wait of its own delay ends by the timer; it is that value.
  pub calculate-ok_iff :
      (s : String) (a b v : F)
      → (calculate fl cfg rpc sleep s a b ≡ ok v) ↔ (
          (o : Operator) × (s ≡ symbol o)
          × (value_of fl o a b ≡ some v)
          × (sleep (delay_of cfg o) ≡ none))
  calculate-ok_iff s a b v = (to (symbol-cases s), from)
    where
      to :
          ((o : Operator) × (s ≡ symbol o)) ⊎ ((o : Operator) → s ≢ symbol o)
          → calculate fl cfg rpc sleep s a b ≡ ok v
          → (o : Operator) × (s ≡ symbol o)
            × (value_of fl o a b ≡ some v)
            × (sleep (delay_of cfg o) ≡ none)
      to (inl (o, e)) h =
          let (value, slept) =
            valued-ok (symbol o) (sleep (delay_of cfg o)) (value_of fl o a b) v
              (sym (calculate-symbol o a b) ∙ (rw e at h)) in
          (o, e, value, slept)
      to (inr none_of_them) h = cc (calculate_unknown s a b none_of_them)

      from :
          ((o : Operator) × (s ≡ symbol o)
            × (value_of fl o a b ≡ some v)
            × (sleep (delay_of cfg o) ≡ none))
          → calculate fl cfg rpc sleep s a b ≡ ok v
      from (o, e, value, slept) = rw (e, calculate-symbol o a b, value, slept)
