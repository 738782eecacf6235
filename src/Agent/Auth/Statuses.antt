-- ===== src/Agent/Auth/Statuses.antt =====
-- The answers of POST /register and POST /login where they go wrong.
use ya_lyceum_go_project_fin.Prelude.{
  ℕ, ◌<◌, String, ◌≡◌, ◌⊎◌, ◌↔◌, inl, inr, refl, sym, ap, ◌∙◌, true, false, none, some, [], ◌∷◌,
  ltb, len, arith, Option-cases, Bool-cases,
}
use ya_lyceum_go_project_fin.Errors.{
  text, new, sprint, invalid_credentials, registration_failed, mismatched_hash_and_password, Error,
  sentinel, wrap, is, is_foreign, Result, ok, err, Result-cases,
}
use ya_lyceum_go_project_fin.Grpc.{Rpc, message}
use ya_lyceum_go_project_fin.Database.{User, Db, Call}
use ya_lyceum_go_project_fin.Agent.Hasher.{hash, compare}
use ya_lyceum_go_project_fin.Agent.Tokens.{generate}
use ya_lyceum_go_project_fin.Agent.Users.{find_login}
use ya_lyceum_go_project_fin.Agent.Auth.Handlers.{
  error_body, registration_answer, handle_register, login_answer, handle_login,
}
use ya_lyceum_go_project_fin.Agent.Auth.{
  AuthService, matches_login, register, with_user, with_token, comparison_error, log_in,
}
use ya_lyceum_go_project_fin.Agent.Auth.Refusals.{log_in-missing, log_in-with_user, log_in-refused}

err-injective : {A : Type 0} {e f : Error} → ◌≡◌ {A = Result A} (err e) (err f) → e ≡ f
err-injective h = cc

login_answer-refused :
    (rpc : Rpc) (r : Result (String × String))
    → ((e : Error)
        → r ≡ err e
        → (e ≡ sentinel invalid_credentials) ⊎ (is invalid_credentials e ≡ false))
    → (login_answer rpc r).0 ≡ 401
    → r ≡ err (sentinel invalid_credentials)
unfolding login_answer
login_answer-refused rpc (ok (user_id, token)) known h = ground arith
login_answer-refused rpc (err e) known h = elim (known e refl) [
  | inl same ↦ ap err same
  | inr other ↦ let wrong = rw (other, login_answer) at h in let no : ⊥ = omega arith in absurd no
]

login_answer_refused :
    (rpc : Rpc)
    → login_answer rpc (err (sentinel invalid_credentials))
      ≡ (401, error_body (text invalid_credentials))
unfolding login_answer is message
login_answer_refused rpc = refl

module _ (s : AuthService) where
  hash-too_long :
      (salt password : String)
      → 72 < len password
      → hash s.bcrypt s.rpc s.hasher salt password
        ≡ err (new "пароль слишком длинный (максимум 72 байта)")
  unfolding hash
  hash-too_long salt password long = ground arith

  -- What `Login` fails with, once the user is found.
  with_user-errors :
      (now now' : ℕ) (password : String) (u : User) (e : Error)
      → with_user s now now' password u ≡ err e
      → (e ≡ sentinel invalid_credentials) ⊎ (is invalid_credentials e ≡ false)
  unfolding with_user with_token comparison_error is
  with_user-errors now now' password u e h =
      elim (Option-cases (compare s.bcrypt s.rpc u.password_hash password)) [
        | inl fits ↦
            elim (Result-cases
              (generate s.jwt s.rpc s.jwt_manager now now' (s.jwt.print_uuid u.id))) [
                | inl (token, signed) ↦ cc (rw (fits, signed, with_user, with_token) at h)
                | inr (x, unsigned) ↦ inr (ground arith)
              ]
        | inr (x, differs) ↦ elim (Bool-cases (is_foreign mismatched_hash_and_password x)) [
          | inl mismatched ↦ inl (ground arith)
          | inr broken ↦ inr (ground arith)
        ]
      ]

module _ {F : Type 0} (s : AuthService) where
  register-too_long :
      (salt : String) (c : Call) (login password : String) (db : Db F)
      → matches_login login ≡ true
      → 72 < len password
      → (m : String) × (register s salt c login password db
          ≡ (db, err (wrap m (sentinel registration_failed))))
  unfolding register
  register-too_long salt c login password db form long =
      let bad = hash-too_long s salt password long in
      let enough : ltb (len password) 6 ≡ false = ground arith in
      (
        sprint (
            text registration_failed
            ∷ ": "
            ∷ message s.rpc (new "пароль слишком длинный (максимум 72 байта)")
            ∷ []),
        rw (form, enough, bad, register),
      )

  -- A registration with a login of the form and a password of more than 72 bytes passes the test of
  -- the password's form and is then answered with the status 500, which is no fault of the server.
  pub handle_register_too_long :
      (salt : String) (c : Call) (login password : String) (db : Db F)
      → matches_login login ≡ true
      → 72 < len password
      → handle_register s salt c (some (record { login = login; password = password })) db
        ≡ (db, (500, error_body "Ошибка регистрации"))
  unfolding handle_register registration_answer
  handle_register_too_long salt c login password db form long =
      let (m, same) = register-too_long salt c login password db form long in rw same

  log_in-errors :
      (c : Call) (now now' : ℕ) (login password : String) (db : Db F) (e : Error)
      → c.fault ≡ none
      → log_in s c now now' login password db ≡ err e
      → (e ≡ sentinel invalid_credentials) ⊎ (is invalid_credentials e ≡ false)
  log_in-errors c now now' login password db e calm h =
      elim (Option-cases (find_login login db.users)) [
        | inl missing ↦
            inl (err-injective (sym h ∙ log_in-missing s c now now' login password db calm missing))
        | inr (u, found) ↦
            with_user-errors s now now' password u e
              (sym (log_in-with_user s c now now' login password db u calm found) ∙ h)
      ]

  -- No user has the login, or bcrypt tells that the password does not match.
  abbrev pub HasNoAccess : String → String → Db F → Type 0
  HasNoAccess login password db =
      (find_login login db.users ≡ none)
      ⊎ ((u : User) × (e : Error) × (find_login login db.users ≡ some u)
          × (compare s.bcrypt s.rpc u.password_hash password ≡ some e)
          × (is_foreign mismatched_hash_and_password e ≡ true))

  -- POST /login, where the look-up meets no fault, is answered with the status 401 exactly if no user
  -- has the login or bcrypt tells that the password does not match; and in both cases the body is the
  -- same one, so that the two are not told apart.
  pub handle_login_unauthorized :
      (c : Call) (now now' : ℕ) (login password : String) (db : Db F)
      → c.fault ≡ none
      → (((handle_login s c now now' (some (record { login = login; password = password })) db).0
            ≡ 401)
          ↔ HasNoAccess login password db)
        × ((handle_login s c now now' (some (record { login = login; password = password })) db
              ≡ (401, error_body (text invalid_credentials)))
            ↔ HasNoAccess login password db)
  unfolding handle_login
  handle_login_unauthorized c now now' login password db calm =
      let (to, from) = log_in-refused s c now now' login password db calm in
      let refused =
        login_answer-refused s.rpc (log_in s c now now' login password db)
          (λ e. log_in-errors c now now' login password db e calm) in
      let answered = λ (r : HasNoAccess login password db).
        ap (login_answer s.rpc) (from r) ∙ login_answer_refused s.rpc in
      (
        (λ h. to (refused h), λ r. ap (λ a. a.0) (answered r)),
        (λ h. to (refused (ap (λ a. a.0) h)), answered),
      )
