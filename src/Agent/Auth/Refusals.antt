-- ===== src/Agent/Auth/Refusals.antt =====
-- When a login is refused.
use ya_lyceum_go_project_fin.Prelude.{
  ℕ, String, ◌≡◌, ◌⊎◌, ◌↔◌, inl, inr, sym, ◌∙◌, true, none, some, arith, Option-cases,
}
use ya_lyceum_go_project_fin.Errors.{
  invalid_credentials, mismatched_hash_and_password, Error, sentinel, is_foreign, err, Result-cases,
}
use ya_lyceum_go_project_fin.Database.{User, Db, Call}
use ya_lyceum_go_project_fin.Agent.Hasher.{compare}
use ya_lyceum_go_project_fin.Agent.Tokens.{generate}
use ya_lyceum_go_project_fin.Agent.Users.{find_login, get_user_by_login}
use ya_lyceum_go_project_fin.Agent.Auth.{AuthService, with_user, with_token, log_in}

module _ (s : AuthService) where
  pub with_user-refused :
      (now now' : ℕ) (password : String) (u : User)
      → with_user s now now' password u ≡ err (sentinel invalid_credentials)
      → (e : Error) × (compare s.bcrypt s.rpc u.password_hash password ≡ some e)
        × (is_foreign mismatched_hash_and_password e ≡ true)
  unfolding with_user with_token
  with_user-refused now now' password u h =
      elim (Option-cases (compare s.bcrypt s.rpc u.password_hash password)) [
        | inl fits ↦
            elim (Result-cases
              (generate s.jwt s.rpc s.jwt_manager now now' (s.jwt.print_uuid u.id))) [
                | inl (token, signed) ↦ cc (rw (fits, signed, with_user, with_token) at h)
                | inr (e, unsigned) ↦ cc (rw (fits, unsigned, with_user, with_token) at h)
              ]
        | inr (e, differs) ↦ (e, differs, ground arith)
      ]

  pub with_user-mismatched :
      (now now' : ℕ) (password : String) (u : User) (e : Error)
      → compare s.bcrypt s.rpc u.password_hash password ≡ some e
      → is_foreign mismatched_hash_and_password e ≡ true
      → with_user s now now' password u ≡ err (sentinel invalid_credentials)
  unfolding with_user
  with_user-mismatched now now' password u e differs mismatched =
      rw (differs, mismatched, with_user)

module _ {F : Type 0} (s : AuthService) where
  pub log_in-missing :
      (c : Call) (now now' : ℕ) (login password : String) (db : Db F)
      → c.fault ≡ none
      → find_login login db.users ≡ none
      → log_in s c now now' login password db ≡ err (sentinel invalid_credentials)
  unfolding log_in get_user_by_login
  log_in-missing c now now' login password db calm missing = ground arith

  pub log_in-with_user :
      (c : Call) (now now' : ℕ) (login password : String) (db : Db F) (u : User)
      → c.fault ≡ none
      → find_login login db.users ≡ some u
      → log_in s c now now' login password db ≡ with_user s now now' password u
  unfolding log_in get_user_by_login
  log_in-with_user c now now' login password db u calm found = ground arith

  -- Login, where the look-up meets no fault, answers ErrInvalidCredentials in two cases only, and the
  -- same error in both: no user has the login, or bcrypt tells that the password does not match.
  pub log_in-refused :
      (c : Call) (now now' : ℕ) (login password : String) (db : Db F)
      → c.fault ≡ none
      → (log_in s c now now' login password db ≡ err (sentinel invalid_credentials)) ↔ (
          (find_login login db.users ≡ none)
          ⊎ ((u : User) × (e : Error) × (find_login login db.users ≡ some u)
              × (compare s.bcrypt s.rpc u.password_hash password ≡ some e)
              × (is_foreign mismatched_hash_and_password e ≡ true)))
  log_in-refused c now now' login password db calm = (
    λ h. elim (Option-cases (find_login login db.users)) [
      | inl missing ↦ inl missing
      | inr (u, found) ↦
          let (e, differs, mismatched) =
            with_user-refused s now now' password u
              (sym (log_in-with_user c now now' login password db u calm found) ∙ h) in
          inr (u, e, found, differs, mismatched)
    ],
    λ r. elim r [
      | inl missing ↦ log_in-missing c now now' login password db calm missing
      | inr (u, e, found, differs, mismatched) ↦
          log_in-with_user c now now' login password db u calm found
          ∙ with_user-mismatched s now now' password u e differs mismatched
    ],
  )
