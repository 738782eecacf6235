-- ===== src/Agent/Hasher.antt =====
-- internal/pkg/hasher/bcrypt.go, over golang.org/x/crypto/bcrypt as a parameter.
use ya_lyceum_go_project_fin.Prelude.{
  String, ◌≡◌, Bool, false, arith, Option, none, some, len, ◌==◌, ltb, [], ◌∷◌, if◌then◌else◌,
}
use ya_lyceum_go_project_fin.Errors.{Error, new, wrap, sprint, Result, ok, err, map_err}
use ya_lyceum_go_project_fin.Grpc.{Rpc, message}
use ya_lyceum_go_project_fin.Float64.{ℤ, pos}

-- `GenerateFromPassword`, which also draws a salt, and `CompareHashAndPassword`, whose law is the
-- documented one: a password matches the hash that was made from it.
pub record Bcrypt : Type 0 where
  pub default_cost : ℤ
  pub generate_from_password : ℤ → String → String → Result String
  pub compare_hash_and_password : String → String → Option Error
  pub compare-generate :
      (cost : ℤ) (salt password hash : String)
      → generate_from_password cost salt password ≡ ok hash
      → compare_hash_and_password hash password ≡ none

abbrev is_zero : ℤ → Bool
is_zero (pos n) = n == 0
is_zero _ = false

pub record BcryptHasher : Type 0 where
  pub cost : ℤ

abbrev pub new_bcrypt_hasher : Bcrypt → ℤ → BcryptHasher
new_bcrypt_hasher lib cost =
    if is_zero cost then record { cost = lib.default_cost } else record { cost = cost }

module _ (lib : Bcrypt) (rpc : Rpc) where
  unfoldable pub hash : BcryptHasher → String → String → Result String
  unfolding message
  hash h salt password =
      if len password == 0
      then err (new "пароль не может быть пустым")
      else if ltb 72 (len password)
      then err (new "пароль слишком длинный (максимум 72 байта)")
      else map_err
          (λ e. wrap (sprint ("ошибка хеширования пароля bcrypt: " ∷ message rpc e ∷ [])) e)
          (lib.generate_from_password h.cost salt password)

  unfoldable pub compare : String → String → Option Error
  unfolding message
  compare hashed_password password = elim (lib.compare_hash_and_password hashed_password password) [
    | none ↦ none
    | some e ↦ some (wrap (sprint ("ошибка сравнения пароля bcrypt: " ∷ message rpc e ∷ [])) e)
  ]

  pub hash-ok :
      (h : BcryptHasher) (salt password hashed : String)
      → hash h salt password ≡ ok hashed
      → lib.generate_from_password h.cost salt password ≡ ok hashed
  unfolding hash
  hash-ok h salt password hashed e = ground arith

  pub compare-hash :
      (h : BcryptHasher) (salt password hashed : String)
      → hash h salt password ≡ ok hashed
      → compare hashed password ≡ none
  unfolding compare
  compare-hash h salt password hashed e =
      let fits =
        lib.compare-generate h.cost salt password hashed (hash-ok h salt password hashed e) in
      rw (fits, compare)
