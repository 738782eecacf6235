-- ===== src/Agent/App.antt =====
-- internal/agent/app/app.go: the providers of `Run` that test what they are given, and the group of
-- routes behind the middleware.
pub mod Laws
pub mod Listing
pub mod Secrets
mod Tests
use ya_lyceum_go_project_fin.Prelude.{
  ℕ, String, Option, none, some, ◌||◌, len, ltb, str_eq, if◌then◌else◌,
}
use ya_lyceum_go_project_fin.Errors.{Result, ok, err}
use ya_lyceum_go_project_fin.Grpc.{Rpc}
use ya_lyceum_go_project_fin.Database.{Uuid}
use ya_lyceum_go_project_fin.Config.{Viper}
use ya_lyceum_go_project_fin.Config.Agent.{Config, load}
use ya_lyceum_go_project_fin.Agent.Tokens.{Jwt, Manager, new_manager}
use ya_lyceum_go_project_fin.Agent.Middleware.{Passage, unauthorized, passed, jwt_auth}
use ya_lyceum_go_project_fin.Agent.Tasks.{Client}
use ya_lyceum_go_project_fin.Agent.Tasks.Handlers.{
  TaskAnswer, failure_body, handle_calculate, handle_get_tasks, handle_get_task,
}

-- What a provider gives; `fatal` is `log.Fatal`, which ends the process.
pub data Provided (A : Type 0) : Type 0 where
  provided : A → Provided A
  fatal : String → Provided A

unfoldable pub provide_config : Rpc → Viper Config → Provided Config
provide_config rpc v = elim (load rpc v) [
  | err e ↦ fatal "Не удалось загрузить конфигурацию для DI"
  | ok cfg ↦
      if str_eq cfg.jwt.secret "default-secret-key-please-change" || ltb (len cfg.jwt.secret) 32
      then fatal
          "Критическая ошибка: JWT_SECRET не установлен или слишком короткий (требуется >= 32 символов). Установите переменную окружения."
      else provided cfg
]

unfoldable pub provide_manager : Config → Provided Manager
unfolding new_manager
provide_manager cfg = elim (new_manager cfg.jwt.secret cfg.jwt.token_ttl) [
  | err e ↦ fatal "Не удалось создать JWT менеджер"
  | ok manager ↦ provided manager
]

-- `return c.JSON(http.StatusUnauthorized, …)` or `return next(c)` of the middleware, with the id in
-- the context of the request.
abbrev pub through : {F : Type 0} → Passage → (Option String → TaskAnswer F) → TaskAnswer F
through (unauthorized m) next = (401, failure_body m)
through (passed user_id) next = next (some user_id)

-- The routes of `protectedGroup`, with what `c.Bind` or the path give.
pub data TaskRoute : Type 0 where
  post_calculate : Option String → TaskRoute
  get_tasks : TaskRoute
  get_task : String → TaskRoute

module _ {F : Type 0} (rpc : Rpc) (client : Client F) (parse_uuid : String → Result Uuid) where
  unfoldable pub handle : TaskRoute → Option String → TaskAnswer F
  unfolding handle_calculate handle_get_tasks handle_get_task
  handle (post_calculate req) user = handle_calculate rpc client user req
  handle get_tasks user = handle_get_tasks rpc client user
  handle (get_task task_id) user = handle_get_task rpc client parse_uuid user task_id

module _ {F : Type 0} (lib : Jwt) (rpc : Rpc) (manager : Manager) (client : Client F)
    (parse_uuid : String → Result Uuid) where
  -- A request of the group: its time, its header `Authorization` and its route.
  unfoldable pub serve : ℕ → String → TaskRoute → TaskAnswer F
  unfolding handle jwt_auth
  serve now auth_header route =
      through (jwt_auth lib rpc manager now auth_header) (handle rpc client parse_uuid route)
