-- ===== src/Float64.antt =====
-- Go's float64, which the services add, divide, compare with 0 and test by package math only: the
-- type and its operations are a parameter. `IsInf` is split into its two signs.
pub mod Sample
use ya_lyceum_go_project_fin.Prelude.{ℕ, Bool, false, ltb}

-- A Go `int`; `negsuc n` is -(n + 1).
pub data ℤ : Type 0 where
  pos : ℕ → ℤ
  negsuc : ℕ → ℤ

-- `n > 0`
abbrev pub is_positive : ℤ → Bool
is_positive (pos n) = ltb 0 n
is_positive (negsuc n) = false

pub record Arith (F : Type 0) : Type 0 where
  pub add : F → F → F
  pub sub : F → F → F
  pub mul : F → F → F
  pub div : F → F → F
  pub pow : F → F → F
  pub neg : F → F
  -- `float64(n)` of an int
  pub of_int : ℤ → F
  pub zero : F
  -- `x == 0.0`
  pub eq_zero : F → Bool
  pub is_pos_inf : F → Bool
  pub is_neg_inf : F → Bool
  pub is_nan : F → Bool
