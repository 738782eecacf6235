-- ===== src/Worker/Operators.antt =====
-- What the calculator computes, stated over an enumeration of the operators.
use ya_lyceum_go_project_fin.Prelude.{
  String, ◌≡◌, refl, ◌≢◌, ◌⊎◌, inl, inr, Option, none, some, arith, eq_iff, str_eq, ap,
  Option-cases, if◌then◌else◌,
}
use ya_lyceum_go_project_fin.Float64.{ℤ, Arith}
use ya_lyceum_go_project_fin.Worker.Calculator.{CalculationTimeConfig}

-- The operators of the worker, with their symbols.
pub data Operator : Type 0 where
  plus minus times divided power negated : Operator

abbrev pub symbol : Operator → String
symbol plus = "+"
symbol minus = "-"
symbol times = "*"
symbol divided = "/"
symbol power = "^"
symbol negated = "neg"

abbrev pub delay_of : CalculationTimeConfig → Operator → ℤ
delay_of cfg plus = cfg.addition
delay_of cfg minus = cfg.subtraction
delay_of cfg times = cfg.multiplication
delay_of cfg divided = cfg.division
delay_of cfg power = cfg.exponentiation
delay_of cfg negated = cfg.subtraction

-- The value of an operator at two operands, if it has one.
abbrev pub value_of : {F : Type 0} → Arith F → Operator → F → F → Option F
value_of fl plus a b = some (fl.add a b)
value_of fl minus a b = some (fl.sub a b)
value_of fl times a b = some (fl.mul a b)
value_of fl divided a b = if fl.eq_zero b then none else some (fl.div a b)
value_of fl power a b = some (fl.pow a b)
value_of fl negated a b = some (fl.neg a)

-- The operator that a text spells.
abbrev read : String → Option Operator
read s =
    if str_eq s "+"
    then some plus
    else if str_eq s "-"
    then some minus
    else if str_eq s "*"
    then some times
    else if str_eq s "/"
    then some divided
    else if str_eq s "^"
    then some power
    else if str_eq s "neg"
    then some negated
    else none

read-symbol : (s : String) (o : Operator) → read s ≡ some o → s ≡ symbol o
read-symbol s o h =
    ground
      (arith, eq_iff s "+", eq_iff s "-", eq_iff s "*", eq_iff s "/", eq_iff s "^", eq_iff s "neg")

read_of_symbol : (o : Operator) → read (symbol o) ≡ some o
read_of_symbol plus = refl
read_of_symbol minus = refl
read_of_symbol times = refl
read_of_symbol divided = refl
read_of_symbol power = refl
read_of_symbol negated = refl

-- A text is the symbol of an operator, or of none.
pub symbol-cases :
    (s : String) → ((o : Operator) × (s ≡ symbol o)) ⊎ ((o : Operator) → s ≢ symbol o)
symbol-cases s = elim (Option-cases (read s)) [
  | inl unread ↦ inr (λ o e. cc (unread, ap read e, read_of_symbol o))
  | inr (o, found) ↦ inl (o, read-symbol s o found)
]
