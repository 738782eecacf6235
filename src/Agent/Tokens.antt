-- ===== src/Agent/Tokens.antt =====
-- internal/pkg/jwtauth/jwtauth.go, over github.com/golang-jwt/jwt/v5 as a parameter.
use ya_lyceum_go_project_fin.Prelude.{
  ℕ, ◌+◌, ◌-◌, ◌≤◌, ◌<◌, suc, String, ◌≡◌, inl, inr, ap, Bool, true, not, Option, none, some, len,
  ltb, [], ◌∷◌, arith, if◌then◌else◌,
}
use ya_lyceum_go_project_fin.Errors.{
  token_expired, token_not_valid_yet, is_foreign, Error, new, wrap, sprint, Result, ok, err,
  map_err, Result-cases,
}
use ya_lyceum_go_project_fin.Grpc.{Rpc, message}
use ya_lyceum_go_project_fin.Float64.{ℤ, pos, negsuc, is_positive}
use ya_lyceum_go_project_fin.Database.{Uuid}

-- Times are in nanoseconds, and so are durations.
pub record Claims : Type 0 where
  pub expires_at : ℕ
  pub issued_at : ℕ
  pub not_before : ℕ
  pub issuer : String
  pub subject : String
  pub user_id : String

-- `token.Method`, as the key function tells it apart: one of `*SigningMethodHMAC`, or another one by
-- its `alg`.
pub data Method : Type 0 where
  hmac : Method
  other_method : String → Method

-- `token.Claims.(*Claims)` and `token.Valid`.
pub record Token : Type 0 where
  pub claims : Option Claims
  pub valid : Bool

-- The libraries: `uuid.Parse` and `UUID.String()`, `NewNumericDate`, which cuts a time off to the seconds, `SignedString`
-- for HS256, and `ParseWithClaims` at a time. A printed id is parsed back; and of a signed token: with a key function
-- that gives the same key for HMAC it is read back as valid between its two times.
pub record Jwt : Type 0 where
  pub parse_uuid : String → Result Uuid
  pub print_uuid : Uuid → String
  pub parse_uuid-print_uuid : (u : Uuid) → parse_uuid (print_uuid u) ≡ ok u
  pub numeric_date : ℕ → ℕ
  pub signed_string : String → Claims → Result String
  pub parse_with_claims : (Method → Result String) → ℕ → String → Result Token
  pub parse-signed_string :
      (key_func : Method → Result String) (key : String) (claims : Claims) (token : String)
      (now : ℕ)
      → key_func hmac ≡ ok key
      → signed_string key claims ≡ ok token
      → claims.not_before ≤ now
      → now < claims.expires_at
      → parse_with_claims key_func now token ≡ ok (record { claims = some claims; valid = true })

pub record Manager : Type 0 where
  pub secret_key : String
  pub token_ttl : ℤ

unfoldable pub new_manager : String → ℤ → Result Manager
new_manager secret_key token_ttl =
    if ltb (len secret_key) 32
    then err (new "секретный ключ JWT должен быть длиной не менее 32 символов")
    else if not (is_positive token_ttl)
    then err (new "время жизни токена (TTL) должно быть положительным")
    else ok (record { secret_key = secret_key; token_ttl = token_ttl })

-- `t.Add(d)`; times before the epoch do not occur.
abbrev pub add_duration : ℕ → ℤ → ℕ
add_duration t (pos n) = t + n
add_duration t (negsuc n) = t - suc n

module _ (lib : Jwt) (rpc : Rpc) where
  -- The claims of a token: the clock is read twice.
  abbrev pub claims_of : Manager → ℕ → ℕ → String → Claims
  claims_of m now now' user_id = record {
    expires_at = lib.numeric_date (add_duration now m.token_ttl);
    issued_at = lib.numeric_date now';
    not_before = lib.numeric_date now';
    issuer = "calculator-app";
    subject = user_id;
    user_id = user_id;
  }

  unfoldable pub generate : Manager → ℕ → ℕ → String → Result String
  unfolding message
  generate m now now' user_id = elim (lib.parse_uuid user_id) [
    | err e ↦
        err
          (wrap (sprint ("невалидный формат UserID для генерации токена: " ∷ message rpc e ∷ [])) e)
    | ok _ ↦
        map_err (λ e. wrap (sprint ("ошибка подписи JWT токена: " ∷ message rpc e ∷ [])) e)
          (lib.signed_string m.secret_key (claims_of m now now' user_id))
  ]

  -- The function that `Verify` gives the parser.
  abbrev key_func : Manager → Method → Result String
  key_func m hmac = ok m.secret_key
  key_func m (other_method alg) = err (new (sprint ("неожиданный метод подписи: " ∷ alg ∷ [])))

  parse_failure : Error → Error
  unfolding message is_foreign
  parse_failure e =
      if is_foreign token_expired e
      then wrap (sprint ("токен истек: " ∷ message rpc e ∷ [])) e
      else if is_foreign token_not_valid_yet e
      then wrap (sprint ("токен еще не действителен: " ∷ message rpc e ∷ [])) e
      else wrap (sprint ("невалидный токен: " ∷ message rpc e ∷ [])) e

  -- `Verify` after the parser.
  read_token : Token → Result String
  unfolding message
  read_token token = elim token.claims [
    | none ↦ err (new "невалидный токен или claims")
    | some claims ↦
        if not token.valid
        then err (new "невалидный токен или claims")
        else elim (lib.parse_uuid claims.user_id) [
          | err e ↦
              err (wrap (sprint ("невалидный UserID в claims токена: " ∷ message rpc e ∷ [])) e)
          | ok _ ↦ ok claims.user_id
        ]
  ]

  unfoldable pub verify : Manager → ℕ → String → Result String
  unfolding parse_failure read_token
  verify m now token_string = elim (lib.parse_with_claims (key_func m) now token_string) [
    | err e ↦ err (parse_failure e)
    | ok token ↦ read_token token
  ]

  generate-ok :
      (m : Manager) (now now' : ℕ) (user_id token : String)
      → generate m now now' user_id ≡ ok token
      → ((u : Uuid) × (lib.parse_uuid user_id ≡ ok u))
        × (lib.signed_string m.secret_key (claims_of m now now' user_id) ≡ ok token)
  unfolding generate
  generate-ok m now now' user_id token h = elim (Result-cases (lib.parse_uuid user_id)) [
    | inl (u, parsed) ↦ ((u, parsed), ground arith)
    | inr (e, bad) ↦ cc (rw (bad, generate) at h)
  ]

  -- A token that `Generate` made for a user is verified as that user's by every manager with the same
  -- key, from the second in which it was issued until its lifetime is over.
  pub verify-generate :
      (m m' : Manager) (now now' later : ℕ) (user_id token : String)
      → generate m now now' user_id ≡ ok token
      → m'.secret_key ≡ m.secret_key
      → lib.numeric_date now' ≤ later
      → later < lib.numeric_date (add_duration now m.token_ttl)
      → verify m' later token ≡ ok user_id
  unfolding verify
  verify-generate m m' now now' later user_id token h same issued fresh =
      let ((u, parsed), signed) = generate-ok m now now' user_id token h in
      let read =
        lib.parse-signed_string (key_func m') m.secret_key (claims_of m now now' user_id) token
          later (ap ok same) signed issued fresh in
      rw (read, parsed, verify)
