-- ===== src/Agent/Middleware.antt =====
-- internal/agent/middleware/auth.go: the bearer token of a request.
pub mod Laws
mod Tests
use ya_lyceum_go_project_fin.Prelude.{
  ℕ, String, Option, none, some, List, [], ◌∷◌, str_eq, not, if◌then◌else◌,
}
use ya_lyceum_go_project_fin.Prelude.Texts.{split, lowers_to}
use ya_lyceum_go_project_fin.Errors.{Result, ok, err}
use ya_lyceum_go_project_fin.Grpc.{Rpc}
use ya_lyceum_go_project_fin.Agent.Tokens.{Jwt, Manager, verify}

-- What the middleware does with a request: it answers 401 with a message, or passes it on with the id
-- of a user.
pub data Passage : Type 0 where
  unauthorized : String → Passage
  passed : String → Passage

module _ (lib : Jwt) (rpc : Rpc) (manager : Manager) where
  verified : Result String → Passage
  verified (err e) = unauthorized "Невалидный или истекший токен авторизации"
  verified (ok user_id) = passed user_id

  unfoldable pub bearer : ℕ → List String → Passage
  unfolding verified lowers_to
  bearer now [] = unauthorized "Неверный формат токена авторизации"
  bearer now (scheme ∷ []) = unauthorized "Неверный формат токена авторизации"
  bearer now (scheme ∷ token ∷ []) =
      if not (lowers_to scheme "bearer")
      then unauthorized "Неверный формат токена авторизации"
      else if str_eq token ""
      then unauthorized "Пустой токен авторизации"
      else verified (verify lib rpc manager now token)
  bearer now (scheme ∷ token ∷ part ∷ parts) = unauthorized "Неверный формат токена авторизации"

  -- The header is "" where the request has none.
  unfoldable pub jwt_auth : ℕ → String → Passage
  unfolding bearer split
  jwt_auth now auth_header =
      if str_eq auth_header ""
      then unauthorized "Отсутствует токен авторизации"
      else bearer now (split auth_header)
