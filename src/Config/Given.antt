-- ===== src/Config/Given.antt =====
-- The tests of the configurations that compare a value with the environment.
use ya_lyceum_go_project_fin.Prelude.{String, ◌≡◌, ◌≢◌, ◌↔◌, false, eq_iff, arith, List}
use ya_lyceum_go_project_fin.Config.{Setting, Viper, looked_up, is_default_in_test, is_unset}

-- In a test, the value under a key is that of the environment, unless viper has another one.
abbrev pub IsGiven : {C : Type 0} → Viper C → List (String × Setting) → String → String → Type 0
IsGiven v defaults key value =
    v.getenv "APP_ENV" ≡ "test" → value ≡ looked_up v defaults key → v.getenv key ≡ value

module _ {C : Type 0} (v : Viper C) (defaults : List (String × Setting)) where
  pub is_default_in_test-IsGiven :
      (key value : String)
      → (is_default_in_test v defaults key value ≡ false) ↔ IsGiven v defaults key value
  is_default_in_test-IsGiven key value = (
    λ h in_test same. ground (
      arith,
      eq_iff (v.getenv "APP_ENV") "test",
      eq_iff value (looked_up v defaults key),
      eq_iff (v.getenv key) value,
    ),
    λ given. ground (
      arith,
      given,
      eq_iff (v.getenv "APP_ENV") "test",
      eq_iff value (looked_up v defaults key),
      eq_iff (v.getenv key) value,
    ),
  )

  pub is_unset-IsGiven :
      (key value : String)
      → (is_unset v defaults key value ≡ false) ↔ ((value ≢ "") × IsGiven v defaults key value)
  is_unset-IsGiven key value = (
    λ h. (ground (arith, eq_iff value ""), (is_default_in_test-IsGiven key value).0 (ground arith)),
    λ (filled, given).
        ground (arith, eq_iff value "", (is_default_in_test-IsGiven key value).1 given),
  )
