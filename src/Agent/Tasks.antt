-- ===== src/Agent/Tasks.antt =====
-- internal/agent/service/task.go: what TaskService makes of the answers of the Orchestrator.
pub mod Handlers
pub mod Laws
pub mod Rejections
mod Tests
use ya_lyceum_go_project_fin.Prelude.{
  ℕ, String, Bool, true, false, not, ◌&&◌, Option, none, some, List, [], ◌∷◌, ◌++◌, str_eq,
  if◌then◌else◌,
}
use ya_lyceum_go_project_fin.Errors.{
  agent_task_not_found, Code, not_found, Error, sentinel, wrap, wrap_two, text, sprint, Result, ok,
  err,
}
use ya_lyceum_go_project_fin.Grpc.{Rpc, message}
use ya_lyceum_go_project_fin.Orchestrator.Messages.{
  ExpressionRequest, ExpressionResponse, TaskDetailsRequest, TaskDetailsResponse, UserTasksRequest,
  UserTasksResponse, TaskBrief,
}
use ya_lyceum_go_project_fin.Orchestrator.Repository.{status_completed, status_failed}

-- The gRPC client of the Orchestrator, `time.Parse` for RFC 3339 and `time.Time{}`.
pub record Client (F : Type 0) : Type 0 where
  pub submit_expression : ExpressionRequest → Result ExpressionResponse
  pub list_user_tasks : UserTasksRequest → Result UserTasksResponse
  pub get_task_details : TaskDetailsRequest → Result (TaskDetailsResponse F)
  pub parse_time : String → Result ℕ
  pub zero_time : ℕ

pub record TaskListItem : Type 0 where
  pub id : String
  pub expression : String
  pub status : String
  pub created_at : ℕ

pub record TaskDetails (F : Type 0) : Type 0 where
  pub id : String
  pub expression : String
  pub status : String
  pub result : Option F
  pub error_message : Option String
  pub created_at : ℕ
  pub updated_at : ℕ

abbrev is_not_found : Option (Code × String) → Bool
is_not_found (some (not_found, m)) = true
is_not_found _ = false

details_error : Rpc → Error → Error
unfolding message
details_error rpc e =
    if is_not_found (rpc.from_error e)
    then wrap_two (sprint (text agent_task_not_found ∷ ": " ∷ message rpc e ∷ []))
        (sentinel agent_task_not_found) e
    else wrap (sprint ("ошибка получения деталей задачи: " ∷ message rpc e ∷ [])) e

module _ {F : Type 0} (client : Client F) where
  -- A time that cannot be read is logged and left at its zero value.
  abbrev pub read_time : String → ℕ
  read_time s = elim (client.parse_time s) [ ok t ↦ t | err e ↦ client.zero_time ]

  abbrev pub list_item : TaskBrief → TaskListItem
  list_item t = record {
    id = t.id;
    expression = t.expression;
    status = t.status;
    created_at = read_time t.created_at;
  }

  -- The loop over the tasks of the answer.
  unfoldable pub list_items : List TaskBrief → List TaskListItem → List TaskListItem
  list_items [] tasks = tasks
  list_items (t ∷ ts) tasks = list_items ts (tasks ++ list_item t ∷ [])

  abbrev pub details_of : TaskDetailsResponse F → TaskDetails F
  details_of r = record {
    id = r.id;
    expression = r.expression;
    status = r.status;
    result = if str_eq r.status status_completed then some r.result else none;
    error_message =
        if str_eq r.status status_failed && not (str_eq r.error_message "")
        then some r.error_message
        else none;
    created_at = read_time r.created_at;
    updated_at = read_time r.updated_at;
  }

module _ {F : Type 0} (rpc : Rpc) (client : Client F) where
  unfoldable pub submit_new_task : String → String → Result String
  unfolding message
  submit_new_task user_id expression =
      elim (client.submit_expression (record { user_id = user_id; expression = expression })) [
        | err e ↦ err (wrap (sprint ("ошибка сервиса вычислений: " ∷ message rpc e ∷ [])) e)
        | ok r ↦ ok r.task_id
      ]

  unfoldable pub get_user_tasks : String → Result (List TaskListItem)
  unfolding message list_items
  get_user_tasks user_id = elim (client.list_user_tasks (record { user_id = user_id })) [
    | err e ↦ err (wrap (sprint ("ошибка получения списка задач: " ∷ message rpc e ∷ [])) e)
    | ok r ↦ ok (list_items client r.tasks [])
  ]

  unfoldable pub task_details : String → String → Result (TaskDetails F)
  unfolding details_error
  task_details user_id task_id =
      elim (client.get_task_details (record { user_id = user_id; task_id = task_id })) [
        | err e ↦ err (details_error rpc e)
        | ok r ↦ ok (details_of client r)
      ]
