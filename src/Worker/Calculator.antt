-- ===== src/Worker/Calculator.antt =====
-- internal/worker/service/calculator.go. `Calculate` waits for a timer or for its context: `sleep`
-- says which of the two `select` takes for a delay, `none` for the timer and `ctx.Err()` else.
use ya_lyceum_go_project_fin.Prelude.{String, Option, none, some, [], ◌∷◌, str_eq, if◌then◌else◌}
use ya_lyceum_go_project_fin.Errors.{
  division_by_zero, unknown_operator, Error, sentinel, wrap, text, sprint, Result, ok, err,
}
use ya_lyceum_go_project_fin.Grpc.{Rpc, message}
use ya_lyceum_go_project_fin.Float64.{ℤ, pos, Arith}

-- The delays are `time.Duration`s, in nanoseconds.
pub record CalculationTimeConfig : Type 0 where
  pub addition : ℤ
  pub subtraction : ℤ
  pub multiplication : ℤ
  pub division : ℤ
  pub exponentiation : ℤ

-- The three variables that the `switch` assigns.
pub record Switch (F : Type 0) : Type 0 where
  pub result : F
  pub delay : ℤ
  pub calc_err : Option Error

abbrev pub Sleep : Type 0
Sleep = ℤ → Option Error

module _ {F : Type 0} (fl : Arith F) (cfg : CalculationTimeConfig) where
  abbrev computed : F → ℤ → Switch F
  computed result delay = record { result = result; delay = delay; calc_err = none }

  pub switch : String → F → F → Switch F
  switch operation a b =
      if str_eq operation "+"
      then computed (fl.add a b) cfg.addition
      else if str_eq operation "-"
      then computed (fl.sub a b) cfg.subtraction
      else if str_eq operation "*"
      then computed (fl.mul a b) cfg.multiplication
      else if str_eq operation "/"
      then (if fl.eq_zero b
          then record {
            result = fl.zero;
            delay = cfg.division;
            calc_err = some (sentinel division_by_zero);
          }
          else computed (fl.div a b) cfg.division)
      else if str_eq operation "^"
      then computed (fl.pow a b) cfg.exponentiation
      else if str_eq operation "neg"
      then computed (fl.neg a) cfg.subtraction
      else record {
        result = fl.zero;
        delay = pos 0;
        calc_err = some (
            wrap (sprint (text unknown_operator ∷ ": '" ∷ operation ∷ "'" ∷ []))
              (sentinel unknown_operator));
      }

  -- The `select` after the `switch`.
  await : Rpc → Sleep → String → Switch F → Result F
  unfolding message
  await rpc sleep operation s = elim s.calc_err [
    | some e ↦ err e
    | none ↦ elim (sleep s.delay) [
      | none ↦ ok s.result
      | some e ↦
          err (wrap (sprint ("вычисление '" ∷ operation ∷ "' отменено: " ∷ message rpc e ∷ [])) e)
    ]
  ]

  unfoldable pub calculate : Rpc → Sleep → String → F → F → Result F
  unfolding switch await
  calculate rpc sleep operation a b = await rpc sleep operation (switch operation a b)
