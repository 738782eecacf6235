-- ===== src/Orchestrator/Server.antt =====
-- internal/orchestrator/grpc_handler/orchestrator_server.go. A handler takes the database and what
-- its calls are given; `go s.startEvaluation(…)` gives back the evaluation that is started.
pub mod Submit
pub mod Rejections
pub mod Endings
pub mod Details
pub mod Growth
pub mod Sample
mod Tests
use ya_lyceum_go_project_fin.Prelude.{
  ℕ, String, ◌≡◌, Bool, true, false, not, ◌||◌, Option, none, some, List, [], ◌∷◌, ◌++◌, map, ◌==◌,
  str_eq, if◌then◌else◌,
}
use ya_lyceum_go_project_fin.Errors.{
  task_not_found, task_database, Error, new, status, invalid_argument, not_found, internal, unknown,
  is, sprint, Result, ok, err, map_err, ◌>>=◌,
}
use ya_lyceum_go_project_fin.Grpc.{Rpc, message}
use ya_lyceum_go_project_fin.Float64.{Arith}
use ya_lyceum_go_project_fin.Database.{Uuid, Task, Db, Call}
use ya_lyceum_go_project_fin.Orchestrator.Ast.{Node}
use ya_lyceum_go_project_fin.Orchestrator.Evaluator.{Surroundings, evaluate}
use ya_lyceum_go_project_fin.Orchestrator.Repository.{
  Fetch, status_processing, create_task, get_task_by_id, get_tasks_by_user_id, update_task_status,
  set_task_result, set_task_error,
}
use ya_lyceum_go_project_fin.Orchestrator.Messages.{
  ExpressionRequest, ExpressionResponse, TaskDetailsRequest, TaskDetailsResponse, UserTasksRequest,
  TaskBrief, UserTasksResponse,
}

-- `uuid.Parse` and `UUID.String()`, `expr.Compile` with `program.Node()`, and the RFC 3339 text of a
-- time.
pub record Libraries (F : Type 0) : Type 0 where
  pub parse_uuid : String → Result Uuid
  pub print_uuid : Uuid → String
  pub parse_uuid-print_uuid : (u : Uuid) → parse_uuid (print_uuid u) ≡ ok u
  pub compile : String → Result (Node F)
  pub format_time : ℕ → String

-- The arguments of `startEvaluation`.
pub record Evaluation (F : Type 0) : Type 0 where
  pub task_id : Uuid
  pub user_id : Uuid
  pub expression : String
  pub root : Node F

-- What `SubmitExpression` leaves: the database, the goroutine that it starts, and its answer.
pub record Submitted (F : Type 0) : Type 0 where
  pub db : Db F
  pub started : Option (Evaluation F)
  pub answer : Result ExpressionResponse

abbrev rejected : {F : Type 0} → Db F → Error → Submitted F
rejected db e = record { db = db; started = none; answer = err e }

creation_failure : Rpc → Error → Error
unfolding is message
creation_failure rpc e =
    if is task_database e
    then status internal "внутренняя ошибка сервера при создании задачи"
    else status unknown (sprint ("неизвестная ошибка при создании задачи: " ∷ message rpc e ∷ []))

module _ {F : Type 0} (rpc : Rpc) (libs : Libraries F) where
  pub created : Uuid → String → Node F → Db F × Result Uuid → Submitted F
  unfolding creation_failure
  created user_id expression root (db, err e) = rejected db (creation_failure rpc e)
  created user_id expression root (db, ok task_id) = record {
    db = db;
    started =
        some
          (record { task_id = task_id; user_id = user_id; expression = expression; root = root });
    answer = ok (record { task_id = libs.print_uuid task_id });
  }

  unfoldable pub submit_expression : Call → ExpressionRequest → Db F → Submitted F
  unfolding created message
  submit_expression c req db = elim (libs.parse_uuid req.user_id) [
    | err e ↦
        rejected db
          (status invalid_argument (sprint ("невалидный формат userID: " ∷ message rpc e ∷ [])))
    | ok user_id ↦
        if str_eq req.expression ""
        then rejected db (status invalid_argument "expression не может быть пустым")
        else elim (libs.compile req.expression) [
          | err e ↦
              rejected db
                (status invalid_argument (sprint ("ошибка в выражении: " ∷ message rpc e ∷ [])))
          | ok root ↦
              created user_id req.expression root (create_task rpc c user_id req.expression db)
        ]
  ]

module _ {F : Type 0} (fl : Arith F) where
  -- `math.IsInf(result, 0) || math.IsNaN(result)`
  abbrev pub is_not_finite : F → Bool
  is_not_finite v = fl.is_pos_inf v || fl.is_neg_inf v || fl.is_nan v

  not_finite_text : F → String
  not_finite_text v =
      if fl.is_pos_inf v
      then "ошибка вычисления: результат +бесконечность (вероятно, деление на ноль)"
      else if fl.is_neg_inf v
      then "ошибка вычисления: результат -бесконечность"
      else if fl.is_nan v
      then "ошибка вычисления: результат не является числом (NaN)"
      else "ошибка вычисления: результат является бесконечностью или не числом (возможно, деление на ноль)"

  -- The test between the evaluation and the writing of its end.
  unfoldable pub check_result : Result F → Result F
  unfolding not_finite_text
  check_result (err e) = err e
  check_result (ok v) = if is_not_finite v then err (new (not_finite_text v)) else ok v

module _ {F : Type 0} (rpc : Rpc) where
  -- `startEvaluation` up to the evaluation: the error is that of `UpdateTaskStatus`.
  unfoldable pub begin_evaluation : Call → Evaluation F → Db F → Db F × Result (Unit {0})
  begin_evaluation c ev db = update_task_status rpc c ev.task_id status_processing db

  -- `startEvaluation` from the end of the evaluation on; the error of the last write is only logged.
  unfoldable pub conclude_evaluation : Call → Uuid → Result F → Db F → Db F
  unfolding message
  conclude_evaluation c task_id (err e) db = (set_task_error rpc c task_id (message rpc e) db).0
  conclude_evaluation c task_id (ok v) db = (set_task_result rpc c task_id v db).0

  unfoldable pub abandon : Call → Evaluation F → Error → Db F → Db F
  unfolding message
  abandon c ev e db =
      (set_task_error rpc c ev.task_id
        (sprint ("Внутренняя ошибка: не удалось начать обработку: " ∷ message rpc e ∷ [])) db).0

module _ {F : Type 0} (fl : Arith F) (rpc : Rpc) where
  unfoldable pub outcome : Surroundings F → Evaluation F → Result F
  unfolding check_result
  outcome w ev = check_result fl (evaluate fl rpc w [] ev.root)

  continue_evaluation :
      Call → (Db F → Db F) → Surroundings F → Evaluation F → Db F × Result (Unit {0}) → Db F
  unfolding conclude_evaluation outcome abandon
  continue_evaluation c meanwhile w ev (db, err e) = abandon rpc c ev e db
  continue_evaluation c meanwhile w ev (db, ok _) =
      conclude_evaluation rpc c ev.task_id (outcome w ev) (meanwhile db)

  -- The calls are those of the first and of the last write; `meanwhile` is what the rest of the
  -- system does to the database while the expression is evaluated.
  unfoldable pub start_evaluation :
      Call → Call → (Db F → Db F) → Surroundings F → Evaluation F → Db F → Db F
  unfolding continue_evaluation
  start_evaluation c c' meanwhile w ev db =
      continue_evaluation c' meanwhile w ev (begin_evaluation rpc c ev db)

abbrev value_or_zero : {F : Type 0} → Arith F → Option F → F
value_or_zero fl none = fl.zero
value_or_zero fl (some v) = v

abbrev text_or_empty : Option String → String
text_or_empty none = ""
text_or_empty (some m) = m

lookup_failure : String → Error → Error
unfolding is
lookup_failure task_id e =
    if is task_not_found e
    then status not_found (sprint ("задача с ID " ∷ task_id ∷ " не найдена" ∷ []))
    else status internal "внутренняя ошибка сервера"

invalid_uuid : Rpc → String → Error → Error
unfolding message
invalid_uuid rpc what e = status invalid_argument (sprint (what ∷ message rpc e ∷ []))

module _ {F : Type 0} (fl : Arith F) (rpc : Rpc) (libs : Libraries F) where
  -- Fields of the response that are not set hold the zero values of their types.
  abbrev pub task_details : Task F → TaskDetailsResponse F
  task_details t = record {
    id = libs.print_uuid t.id;
    expression = t.expression;
    status = t.status;
    result = value_or_zero fl t.result;
    error_message = text_or_empty t.error_message;
    created_at = libs.format_time t.created_at;
    updated_at = libs.format_time t.updated_at;
  }

  unfoldable pub get_task_details :
      Call → TaskDetailsRequest → Db F → Result (TaskDetailsResponse F)
  unfolding lookup_failure invalid_uuid
  get_task_details c req db = do
    task_id ← map_err (invalid_uuid rpc "невалидный формат taskID: ") (libs.parse_uuid req.task_id)
    user_id ←
        map_err (invalid_uuid rpc "невалидный формат userID в запросе: ")
          (libs.parse_uuid req.user_id)
    task ← map_err (lookup_failure req.task_id) (get_task_by_id rpc c task_id db)
    if not (task.user_id == user_id)
        then err (
            status not_found
              (sprint ("задача с ID " ∷ req.task_id ∷ " не найдена (или нет прав доступа)" ∷ [])))
        else ok (task_details task)

module _ {F : Type 0} (rpc : Rpc) (libs : Libraries F) where
  abbrev pub task_brief : Task F → TaskBrief
  task_brief t = record {
    id = libs.print_uuid t.id;
    expression = t.expression;
    status = t.status;
    created_at = libs.format_time t.created_at;
  }

  -- The loop over the tasks.
  unfoldable pub briefs : List (Task F) → List TaskBrief → List TaskBrief
  briefs [] pb_tasks = pb_tasks
  briefs (t ∷ ts) pb_tasks = briefs ts (pb_tasks ++ task_brief t ∷ [])

  unfoldable pub list_user_tasks : Fetch → UserTasksRequest → Db F → Result UserTasksResponse
  unfolding invalid_uuid briefs
  list_user_tasks f req db = do
    user_id ← map_err (invalid_uuid rpc "невалидный формат userID: ") (libs.parse_uuid req.user_id)
    tasks ←
        map_err (λ e. status internal "внутренняя ошибка сервера")
          (get_tasks_by_user_id rpc f user_id db)
    ok (record { tasks = briefs tasks [] })
