-- ===== src/Agent/Auth.antt =====
-- internal/agent/service/auth.go: Register and Login over the users, the hasher and the tokens.
pub mod Form
pub mod Laws
pub mod Refusals
pub mod Statuses
pub mod Handlers
pub mod Sample
mod Tests
use ya_lyceum_go_project_fin.Prelude.{
  ℕ, String, Bool, ◌&&◌, not, none, some, [], ◌∷◌, leb, ltb, len, if◌then◌else◌,
}
use ya_lyceum_go_project_fin.Prelude.Texts.{all_word, characters}
use ya_lyceum_go_project_fin.Errors.{
  user_not_found, login_already_exists, invalid_login_format, invalid_password_format,
  invalid_credentials, registration_failed, login_failed, mismatched_hash_and_password, Error,
  sentinel, wrap, is, is_foreign, text, sprint, Result, ok, err,
}
use ya_lyceum_go_project_fin.Grpc.{Rpc, message}
use ya_lyceum_go_project_fin.Database.{Uuid, User, Db, Call}
use ya_lyceum_go_project_fin.Agent.Hasher.{Bcrypt, BcryptHasher, hash, compare}
use ya_lyceum_go_project_fin.Agent.Tokens.{Jwt, Manager, generate}
use ya_lyceum_go_project_fin.Agent.Users.{create_user, get_user_by_login}

-- loginRegex: ^[a-zA-Z0-9_]{3,30}$
unfoldable pub matches_login : String → Bool
unfolding characters
matches_login login = leb 3 (characters login) && leb (characters login) 30 && all_word login

registration_error : Error → Error
unfolding is
registration_error e =
    if is login_already_exists e
    then sentinel login_already_exists
    else wrap (sprint (text registration_failed ∷ ": ошибка репозитория" ∷ []))
        (sentinel registration_failed)

lookup_login_error : Error → Error
unfolding is
lookup_login_error e =
    if is user_not_found e
    then sentinel invalid_credentials
    else wrap (sprint (text login_failed ∷ ": ошибка репозитория" ∷ [])) (sentinel login_failed)

comparison_error : Rpc → Error → Error
unfolding is_foreign message
comparison_error rpc e =
    if is_foreign mismatched_hash_and_password e
    then sentinel invalid_credentials
    else wrap (sprint (text login_failed ∷ ": ошибка сравнения хеша: " ∷ message rpc e ∷ []))
        (sentinel login_failed)

-- The fields of `authService`, and the libraries below them.
pub record AuthService : Type 0 where
  pub bcrypt : Bcrypt
  pub jwt : Jwt
  pub rpc : Rpc
  pub hasher : BcryptHasher
  pub jwt_manager : Manager

module _ (s : AuthService) where
  -- `Login` once the password is compared.
  pub with_token : ℕ → ℕ → User → Result (String × String)
  with_token now now' user =
      elim (generate s.jwt s.rpc s.jwt_manager now now' (s.jwt.print_uuid user.id)) [
        | err e ↦ err (
            wrap (sprint (text login_failed ∷ ": ошибка генерации токена" ∷ []))
              (sentinel login_failed))
        | ok token ↦ ok (s.jwt.print_uuid user.id, token)
      ]

  pub with_user : ℕ → ℕ → String → User → Result (String × String)
  unfolding comparison_error with_token
  with_user now now' password user = elim (compare s.bcrypt s.rpc user.password_hash password) [
    | some e ↦ err (comparison_error s.rpc e)
    | none ↦ with_token now now' user
  ]

module _ {F : Type 0} (s : AuthService) where
  registered : Db F × Result Uuid → Db F × Result String
  unfolding registration_error
  registered (db, err e) = (db, err (registration_error e))
  registered (db, ok user_id) = (db, ok (s.jwt.print_uuid user_id))

  -- The salt is the one that bcrypt draws.
  unfoldable pub register : String → Call → String → String → Db F → Db F × Result String
  unfolding registered message matches_login
  register salt c login password db =
      if not (matches_login login)
      then (db, err (sentinel invalid_login_format))
      else if ltb (len password) 6
      then (db, err (sentinel invalid_password_format))
      else elim (hash s.bcrypt s.rpc s.hasher salt password) [
        | err e ↦ (
          db,
          err (
              wrap (sprint (text registration_failed ∷ ": " ∷ message s.rpc e ∷ []))
                (sentinel registration_failed)),
        )
        | ok password_hash ↦ registered (create_user s.rpc c login password_hash db)
      ]

  -- The times are those that `Generate` reads.
  unfoldable pub log_in : Call → ℕ → ℕ → String → String → Db F → Result (String × String)
  unfolding lookup_login_error with_user
  log_in c now now' login password db = elim (get_user_by_login s.rpc c login db) [
    | err e ↦ err (lookup_login_error e)
    | ok user ↦ with_user s now now' password user
  ]
