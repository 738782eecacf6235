-- ===== src/Float64/Sample.antt =====
-- A small arithmetic with integers, infinities and NaN, on which the tests and witnesses run. It is
-- no model of float64: the theorems hold of every `Arith`.
use ya_lyceum_go_project_fin.Prelude.{
  ℕ, suc, ◌+◌, ◌-◌, ◌*◌, ◌/◌, Bool, true, false, ltb, leb, ◌==◌, ◌&&◌, if◌then◌else◌,
}
use ya_lyceum_go_project_fin.Float64.{ℤ, pos, negsuc, Arith}

pub data Num : Type 0 where
  fin : ℤ → Num
  pos_inf neg_inf not_a_number : Num

abbrev pos_part : ℤ → ℕ
pos_part (pos n) = n
pos_part (negsuc n) = 0

abbrev neg_part : ℤ → ℕ
neg_part (pos n) = 0
neg_part (negsuc n) = suc n

abbrev sub_ℕ : ℕ → ℕ → ℤ
sub_ℕ a b = if leb b a then pos (a - b) else negsuc (b - a - 1)

abbrev lift : (ℤ → ℤ → Num) → Num → Num → Num
lift f (fin a) (fin b) = f a b
lift f _ _ = not_a_number

abbrev add_int : ℤ → ℤ → Num
add_int a b = fin (sub_ℕ (pos_part a + pos_part b) (neg_part a + neg_part b))

abbrev neg_int : ℤ → ℤ
neg_int a = sub_ℕ (neg_part a) (pos_part a)

abbrev mul_int : ℤ → ℤ → Num
mul_int a b = fin (
    sub_ℕ (pos_part a * pos_part b + neg_part a * neg_part b)
      (pos_part a * neg_part b + neg_part a * pos_part b))

abbrev is_zero_int : ℤ → Bool
is_zero_int a = (pos_part a == 0) && (neg_part a == 0)

-- Truncated division, and the infinities at 0.
abbrev div_int : ℤ → ℤ → Num
div_int a b =
    if is_zero_int b
    then (if ltb 0 (pos_part a)
        then pos_inf
        else if ltb 0 (neg_part a)
        then neg_inf
        else not_a_number)
    else fin (
        sub_ℕ ((pos_part a) / (pos_part b + neg_part b)) ((neg_part a) / (pos_part b + neg_part b)))

abbrev neg_num : Num → Num
neg_num (fin a) = fin (neg_int a)
neg_num pos_inf = neg_inf
neg_num neg_inf = pos_inf
neg_num not_a_number = not_a_number

abbrev is_zero_num : Num → Bool
is_zero_num (fin a) = is_zero_int a
is_zero_num _ = false

abbrev is_pos : Num → Bool
is_pos pos_inf = true
is_pos _ = false

abbrev is_neg : Num → Bool
is_neg neg_inf = true
is_neg _ = false

abbrev is_not : Num → Bool
is_not not_a_number = true
is_not _ = false

abbrev pub sample : Arith Num
sample = record {
  add = lift add_int;
  sub = λ x y. lift add_int x (neg_num y);
  mul = lift mul_int;
  div = lift div_int;
  pow = λ x y. lift mul_int x x;
  neg = neg_num;
  of_int = fin;
  zero = fin (pos 0);
  eq_zero = is_zero_num;
  is_pos_inf = is_pos;
  is_neg_inf = is_neg;
  is_nan = is_not;
}
