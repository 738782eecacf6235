-- ===== src/Agent/Auth/Handlers.antt =====
-- internal/agent/handler/auth.go: the answers of POST /register and POST /login.
use ya_lyceum_go_project_fin.Prelude.{ℕ, String, ◌||◌, Option, none, some, if◌then◌else◌}
use ya_lyceum_go_project_fin.Errors.{
  login_already_exists, invalid_login_format, invalid_password_format, invalid_credentials, is,
  Result, ok, err,
}
use ya_lyceum_go_project_fin.Grpc.{Rpc, message}
use ya_lyceum_go_project_fin.Database.{Db, Call}
use ya_lyceum_go_project_fin.Agent.Auth.{AuthService, register, log_in}

-- The JSON bodies: ErrorResponse, the message of a registration, and LoginResponse.
pub data Body : Type 0 where
  error_body message_body token_body : String → Body

-- The status of an answer and its body.
abbrev pub Response : Type 0
Response = ℕ × Body

-- RegisterRequest and LoginRequest.
pub record Credentials : Type 0 where
  pub login : String
  pub password : String

unfoldable pub registration_answer : Rpc → Result String → Response
unfolding is message
registration_answer rpc (ok _) = (200, message_body "Пользователь успешно зарегистрирован")
registration_answer rpc (err e) =
    if is invalid_login_format e || is invalid_password_format e
    then (400, error_body (message rpc e))
    else if is login_already_exists e
    then (409, error_body (message rpc e))
    else (500, error_body "Ошибка регистрации")

unfoldable pub login_answer : Rpc → Result (String × String) → Response
unfolding is message
login_answer rpc (ok (user_id, token)) = (200, token_body token)
login_answer rpc (err e) =
    if is invalid_credentials e
    then (401, error_body (message rpc e))
    else (500, error_body "Ошибка входа")

module _ {F : Type 0} (s : AuthService) where
  -- The request is what `c.Bind` made of the body, if it could.
  unfoldable pub handle_register : String → Call → Option Credentials → Db F → Db F × Response
  unfolding registration_answer
  handle_register salt c none db = (db, (400, error_body "Неверное тело запроса"))
  handle_register salt c (some req) db =
      let (db', r) = register s salt c req.login req.password db in
      (db', registration_answer s.rpc r)

  unfoldable pub handle_login : Call → ℕ → ℕ → Option Credentials → Db F → Response
  unfolding login_answer
  handle_login c now now' none db = (400, error_body "Неверное тело запроса")
  handle_login c now now' (some req) db =
      login_answer s.rpc (log_in s c now now' req.login req.password db)
