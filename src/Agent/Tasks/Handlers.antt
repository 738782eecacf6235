-- ===== src/Agent/Tasks/Handlers.antt =====
-- internal/agent/handler/task.go: the answers of POST /calculate, GET /tasks and GET /tasks/:id. The
-- user's id is the one that the middleware left in the context of the request.
use ya_lyceum_go_project_fin.Prelude.{ℕ, String, Option, none, some, List, str_eq, if◌then◌else◌}
use ya_lyceum_go_project_fin.Errors.{agent_task_not_found, is, Result, ok, err}
use ya_lyceum_go_project_fin.Grpc.{Rpc, message}
use ya_lyceum_go_project_fin.Database.{Uuid}
use ya_lyceum_go_project_fin.Agent.Tasks.{
  Client, TaskListItem, TaskDetails, submit_new_task, get_user_tasks, task_details,
}

-- The JSON bodies: ErrorResponse, CalculateResponse, the list and the details.
pub data TaskBody (F : Type 0) : Type 0 where
  failure_body : String → TaskBody F
  accepted_body : String → TaskBody F
  list_body : List TaskListItem → TaskBody F
  details_body : TaskDetails F → TaskBody F

abbrev pub TaskAnswer : Type 0 → Type 0
TaskAnswer F = ℕ × TaskBody F

abbrev no_user : {F : Type 0} → TaskAnswer F
no_user = (500, failure_body "Внутренняя ошибка сервера")

module _ {F : Type 0} (rpc : Rpc) (client : Client F) where
  -- The request is the expression that `c.Bind` read, if it could.
  unfoldable pub handle_calculate : Option String → Option String → TaskAnswer F
  unfolding message
  handle_calculate none req = no_user
  handle_calculate (some user_id) none = (400, failure_body "Неверное тело запроса")
  handle_calculate (some user_id) (some expression) =
      if str_eq expression ""
      then (400, failure_body "Поле 'expression' не может быть пустым")
      else elim (submit_new_task rpc client user_id expression) [
        | err e ↦ (500, failure_body (message rpc e))
        | ok task_id ↦ (202, accepted_body task_id)
      ]

  unfoldable pub handle_get_tasks : Option String → TaskAnswer F
  unfolding message
  handle_get_tasks none = no_user
  handle_get_tasks (some user_id) = elim (get_user_tasks rpc client user_id) [
    | err e ↦ (500, failure_body (message rpc e))
    | ok tasks ↦ (200, list_body tasks)
  ]

  unfoldable pub handle_get_task : (String → Result Uuid) → Option String → String → TaskAnswer F
  unfolding message is
  handle_get_task parse_uuid none task_id = no_user
  handle_get_task parse_uuid (some user_id) task_id = elim (parse_uuid task_id) [
    | err e ↦ (400, failure_body "Невалидный формат ID задачи")
    | ok _ ↦ elim (task_details rpc client user_id task_id) [
      | err e ↦
          if is agent_task_not_found e
          then (404, failure_body (message rpc e))
          else (500, failure_body (message rpc e))
      | ok details ↦ (200, details_body details)
    ]
  ]
