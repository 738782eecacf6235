-- ===== src/Agent/Api.antt =====
-- The routes of the Agent: RegisterRoutes of internal/agent/handler/auth.go and task.go, and the groups
-- of internal/agent/app/app.go that they are registered in.
pub mod Answers
pub mod Documented
mod Tests
use ya_lyceum_go_project_fin.Prelude.{ℕ, String, Option, some, [], ◌∷◌}
use ya_lyceum_go_project_fin.Errors.{Result}
use ya_lyceum_go_project_fin.Float64.{Arith}
use ya_lyceum_go_project_fin.Database.{Uuid, Db, Call}
use ya_lyceum_go_project_fin.Agent.Auth.{AuthService}
use ya_lyceum_go_project_fin.Agent.Auth.Handlers.{Credentials, handle_register, handle_login}
use ya_lyceum_go_project_fin.Agent.Tasks.{Client}
use ya_lyceum_go_project_fin.Agent.App.{TaskRoute, post_calculate, get_tasks, get_task, serve}
use ya_lyceum_go_project_fin.Agent.Json.{Json, encode_body, encode_task_body}
use ya_lyceum_go_project_fin.Agent.Docs.{Method, get, post, PathTemplate, literal, parameter}

-- A request with what `c.Bind` made of its body; one to the protected group with its header
-- `Authorization`.
pub data Request : Type 0 where
  to_register to_login : Option Credentials → Request
  to_task_route : String → TaskRoute → Request

-- The method and the path below `/api/v1`.
abbrev pub endpoint : Request → Method × PathTemplate
endpoint (to_register req) = (post, literal "register" ∷ [])
endpoint (to_login req) = (post, literal "login" ∷ [])
endpoint (to_task_route auth_header (post_calculate req)) = (post, literal "calculate" ∷ [])
endpoint (to_task_route auth_header get_tasks) = (get, literal "tasks" ∷ [])
endpoint (to_task_route auth_header (get_task id)) = (get, literal "tasks" ∷ parameter "id" ∷ [])

-- What decides on an answer besides the request: the salt of a new hash, what the database decides,
-- and the times at which the clock is read.
pub record Moment : Type 0 where
  pub salt : String
  pub call : Call
  pub now : ℕ
  pub later : ℕ

module _ {F : Type 0} (fl : Arith F) (encode_time : ℕ → Option String) (s : AuthService)
    (client : Client F) (parse_uuid : String → Result Uuid) where
  -- The status and the JSON body, if it can be encoded.
  unfoldable pub respond : Moment → Request → Db F → ℕ × Option (Json F)
  unfolding handle_register handle_login serve encode_task_body
  respond m (to_register req) db =
      let (_, (status, body)) = handle_register s m.salt m.call req db in
      (status, some (encode_body body))
  respond m (to_login req) db =
      let (status, body) = handle_login s m.call m.now m.later req db in
      (status, some (encode_body body))
  respond m (to_task_route auth_header route) db =
      let (status, body) =
        serve s.jwt s.rpc s.jwt_manager client parse_uuid m.now auth_header route in
      (status, encode_task_body fl encode_time body)
