-- ===== src/Agent/Tasks/Tests.antt =====
-- Requests for tasks over the Orchestrator's service on a database with two tasks.
use ya_lyceum_go_project_fin.Prelude.{String, Option, ◌⊎◌, ◌↔◌, [], ◌∷◌, ◌≡◌, refl, none, some}
use ya_lyceum_go_project_fin.Errors.{not_found, invalid_argument, sprint, status, new, ok, err}
use ya_lyceum_go_project_fin.Grpc.Sample.{sample_rpc}
use ya_lyceum_go_project_fin.Float64.{pos}
use ya_lyceum_go_project_fin.Float64.Sample.{Num, fin, sample}
use ya_lyceum_go_project_fin.Database.Sample.{working, two_tasks, print_dashes}
use ya_lyceum_go_project_fin.Orchestrator.Repository.{get_task_by_id}
use ya_lyceum_go_project_fin.Orchestrator.Server.{Libraries, submit_expression, get_task_details}
use ya_lyceum_go_project_fin.Orchestrator.Server.Sample.{sample_libs}
use ya_lyceum_go_project_fin.Agent.Tasks as Tasks
use ya_lyceum_go_project_fin.Agent.Tasks.{Client, TaskDetails}
use ya_lyceum_go_project_fin.Agent.Tasks.Handlers.{
  failure_body, details_body, handle_calculate, handle_get_task,
}
use ya_lyceum_go_project_fin.Agent.Tasks.Rejections.{handle_calculate_invalid}
use ya_lyceum_go_project_fin.Grpc.{message}
use ya_lyceum_go_project_fin.Agent.Tasks.Laws.{IsOwnTask, handle_get_task-IsOwnTask}

-- A client with nothing between it and the Orchestrator.
abbrev direct : Client Num
direct = record {
  submit_expression = λ req. err (new "unused");
  list_user_tasks = λ req. err (new "unused");
  get_task_details = λ req. get_task_details sample sample_rpc sample_libs working req two_tasks;
  parse_time = λ s. ok 7;
  zero_time = 0;
}

abbrev first_details : TaskDetails Num
first_details = record {
  id = "-----------";
  expression = "2 + 2";
  status = "completed";
  result = some (fin (pos 4));
  error_message = none;
  created_at = 7;
  updated_at = 7;
}

first_answer :
    handle_get_task sample_rpc direct sample_libs.parse_uuid (some "--") "-----------"
    ≡ (200, details_body first_details)
unfolding handle_get_task Tasks.task_details get_task_details get_task_by_id print_dashes
first_answer = refl

handle_get_task-IsOwnTask_example :
    IsOwnTask sample sample_rpc sample_libs direct working two_tasks "--" "-----------"
      first_details
handle_get_task-IsOwnTask_example =
    handle_get_task-IsOwnTask sample sample_rpc sample_libs direct working two_tasks (λ req r h. h)
      refl "--" "-----------" first_details first_answer

missing_answer :
    get_task_details sample sample_rpc sample_libs working
      (record { user_id = "--"; task_id = "---" })
      two_tasks
    ≡ err (status not_found "задача с ID --- не найдена")
unfolding get_task_details get_task_by_id
missing_answer = refl

-- A compiler that knows no expression.
abbrev strict_libs : Libraries Num
strict_libs = record sample_libs { compile = λ s. err (new "unexpected token") }

abbrev strict : Client Num
strict = record direct {
  submit_expression =
      λ req. (submit_expression sample_rpc strict_libs working req two_tasks).answer;
}

handle_calculate_invalid_example :
    ((req : Option String)
      → ((handle_calculate sample_rpc strict (some "--") req).0 ≡ 400)
        ↔ ((req ≡ none) ⊎ (req ≡ some "")))
    × (handle_calculate sample_rpc strict (some "--") (some "2 +") ≡ (
      500,
      failure_body (
          sprint (
            "ошибка сервиса вычислений: "
            ∷ sample_rpc.status_text invalid_argument
                (sprint ("ошибка в выражении: " ∷ message sample_rpc (new "unexpected token") ∷ []))
            ∷ [])),
    ))
    × ((submit_expression sample_rpc strict_libs working
          (record { user_id = "--"; expression = "2 +" })
          two_tasks).started
        ≡ none)
    × ((submit_expression sample_rpc strict_libs working
          (record { user_id = "--"; expression = "2 +" })
          two_tasks).db
        ≡ two_tasks)
handle_calculate_invalid_example =
    handle_calculate_invalid sample_rpc strict strict_libs working two_tasks "--" "2 +" 1
      (new "unexpected token") (λ req. refl) refl (λ h. cc) refl
