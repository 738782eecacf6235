-- ===== src/System/Tests/Requests.antt =====
-- The theorems on the requests to the Agent, at the states of one user's task.
use ya_lyceum_go_project_fin.Prelude.{◌≡◌, refl, none, some, []}
use ya_lyceum_go_project_fin.Errors.{new, ok, err}
use ya_lyceum_go_project_fin.Grpc.Sample.{sample_rpc}
use ya_lyceum_go_project_fin.Float64.{negsuc}
use ya_lyceum_go_project_fin.Float64.Sample.{Num, fin, sample}
use ya_lyceum_go_project_fin.Database.Sample.{working, print_dashes}
use ya_lyceum_go_project_fin.Worker.Sample.{delays, timer}
use ya_lyceum_go_project_fin.Orchestrator.Evaluator.Sample.{calm, evaluator}
use ya_lyceum_go_project_fin.Orchestrator.Repository.{
  create_task, get_task_by_id, update_task_status, set_task_result, set_task_error,
}
use ya_lyceum_go_project_fin.Orchestrator.Server.{
  abandon, submit_expression, begin_evaluation, conclude_evaluation, outcome, get_task_details,
}
use ya_lyceum_go_project_fin.Orchestrator.Server.Sample.{sample_libs}
use ya_lyceum_go_project_fin.Agent.Users.{create_user}
use ya_lyceum_go_project_fin.Agent.Auth.Sample.{sample_service, sample_jwt, bob_id}
use ya_lyceum_go_project_fin.System.{first, at_start, after}
use ya_lyceum_go_project_fin.System.{begins, concludes}
use ya_lyceum_go_project_fin.Prelude.Texts.{split, lowers_to}
use ya_lyceum_go_project_fin.Agent.Tokens.{verify}
use ya_lyceum_go_project_fin.Agent.Tasks as Tasks
use ya_lyceum_go_project_fin.Agent.Tasks.{Client, TaskDetails}
use ya_lyceum_go_project_fin.Agent.Tasks.Handlers.{details_body, handle_get_task}
use ya_lyceum_go_project_fin.Agent.App.{get_task, serve}
use ya_lyceum_go_project_fin.System.Answers.{IsAnswer, serve-IsAnswer}
use ya_lyceum_go_project_fin.System.Sample.{
  registered, everywhere, everywhere-IsHonest, evaluation, concluded, submitted-queue, begun-ok,
  concluded-reached,
}
use ya_lyceum_go_project_fin.Prelude.{◌⊎◌, true}
use ya_lyceum_go_project_fin.Orchestrator.Evaluator.Meaning.{evaluate_sound, Denotes}
use ya_lyceum_go_project_fin.Orchestrator.Evaluator.{evaluate}
use ya_lyceum_go_project_fin.Orchestrator.Evaluator.Sample.{calm-IsHonest, calm-IsReliable, product}
use ya_lyceum_go_project_fin.Agent.Middleware.Laws.{IsBearer, jwt_auth_iff}
use ya_lyceum_go_project_fin.Agent.Middleware.{jwt_auth}
use ya_lyceum_go_project_fin.Agent.Tasks.Handlers.{accepted_body, handle_calculate}
use ya_lyceum_go_project_fin.Agent.App.{post_calculate}
use ya_lyceum_go_project_fin.System.Running.{is_running}
use ya_lyceum_go_project_fin.System.Arrival.{CanArrive}
use ya_lyceum_go_project_fin.System.Sample.{registered-IsSound}
use ya_lyceum_go_project_fin.System.Completion.{post_calculate-get_task}
use ya_lyceum_go_project_fin.Prelude.{List, ◌∷◌}
use ya_lyceum_go_project_fin.Orchestrator.Repository.{Fetch, get_tasks_by_user_id}
use ya_lyceum_go_project_fin.Orchestrator.Server.{list_user_tasks}
use ya_lyceum_go_project_fin.Agent.Tasks.{TaskListItem}
use ya_lyceum_go_project_fin.Agent.Tasks.Handlers.{list_body}
use ya_lyceum_go_project_fin.Agent.App.{get_tasks}
use ya_lyceum_go_project_fin.Agent.App.Listing.{IsOwnListing, serve-IsOwnListing}

service : Unit {0}
unfolding abandon serve jwt_auth handle_calculate Tasks.submit_new_task handle_get_task
    Tasks.task_details verify split lowers_to create_user submit_expression create_task
    begin_evaluation conclude_evaluation evaluator outcome update_task_status set_task_result
    set_task_error get_task_details get_task_by_id print_dashes
service = tt

abbrev whole : Fetch
whole = record { query_err = none; scan_err = λ i. none; cut = none }

-- A client with nothing between it and the Orchestrator, on the tables at the end.
abbrev direct : Client Num
direct = record {
  submit_expression = λ req. err (new "unused");
  list_user_tasks = λ req. list_user_tasks sample_rpc sample_libs whole req concluded.db;
  get_task_details = λ req. get_task_details sample sample_rpc sample_libs working req concluded.db;
  parse_time = λ s. ok 7;
  zero_time = 0;
}

abbrev shown_details : TaskDetails Num
shown_details = record {
  id = "-------------------------------";
  expression = "(2 + 2) * -4";
  status = "completed";
  result = some (fin (negsuc 15));
  error_message = none;
  created_at = 7;
  updated_at = 7;
}

shown_answer :
    serve sample_jwt sample_rpc sample_service.jwt_manager direct sample_libs.parse_uuid 900
      "Bearer signed"
      (get_task "-------------------------------")
    ≡ (200, details_body shown_details)
unfolding service
shown_answer = refl

serve-IsAnswer_example :
    IsAnswer sample sample_rpc sample_libs direct sample_jwt sample_service.jwt_manager 900
      "Bearer signed" "-------------------------------" working concluded shown_details
serve-IsAnswer_example =
    serve-IsAnswer sample sample_rpc sample_libs direct everywhere delays (λ k p. timer) concluded
      working sample_jwt sample_service.jwt_manager 900 "Bearer signed"
      "-------------------------------" shown_details everywhere-IsHonest concluded-reached refl
      (λ req r h. h) shown_answer

-- The same client before the first task.
abbrev first_client : Client Num
first_client = record direct {
  submit_expression =
      λ req. (submit_expression sample_rpc sample_libs working req registered.db).answer;
}

bob-IsBearer : IsBearer sample_jwt sample_rpc sample_service.jwt_manager 900 "Bearer signed" bob_id
unfolding service
bob-IsBearer =
    (jwt_auth_iff sample_jwt sample_rpc sample_service.jwt_manager 900 "Bearer signed" bob_id).0
      refl

accepted-answer :
    serve sample_jwt sample_rpc sample_service.jwt_manager first_client sample_libs.parse_uuid 900
      "Bearer signed"
      (post_calculate (some "(2 + 2) * -4"))
    ≡ (202, accepted_body "-------------------------------")
unfolding service
accepted-answer = refl

product-value : evaluate sample sample_rpc calm [] product ≡ ok (fin (negsuc 15))
unfolding evaluator
product-value = refl

product-Denotes : Denotes sample product (fin (negsuc 15))
product-Denotes =
    evaluate_sound sample sample_rpc delays calm (λ p. timer) calm-IsHonest [] product
      (fin (negsuc 15)) product-value

post_calculate-get_task_example :
    ((is_running 30 concluded.running ≡ true)
      × CanArrive sample sample_rpc sample_libs everywhere 30 (fin (negsuc 15)) concluded)
    ⊎ ((d : TaskDetails Num) × (serve sample_jwt sample_rpc sample_service.jwt_manager direct
            sample_libs.parse_uuid 900 "Bearer signed"
            (get_task "-------------------------------")
          ≡ (200, details_body d))
        × (d.expression ≡ "(2 + 2) * -4")
        × (d.status ≡ "completed")
        × (d.result ≡ some (fin (negsuc 15))))
post_calculate-get_task_example =
    post_calculate-get_task sample sample_rpc sample_libs everywhere delays (λ k p. timer)
      sample_jwt sample_service.jwt_manager 900 900 "Bearer signed" "Bearer signed" bob_id
      "(2 + 2) * -4" "-------------------------------" 30 product (fin (negsuc 15)) first_client
      direct working working registered concluded everywhere-IsHonest calm-IsReliable
      registered-IsSound (λ req. refl) (λ req. refl) refl bob-IsBearer bob-IsBearer refl refl
      product-Denotes refl accepted-answer
      (after (after at_start (begins working evaluation [] submitted-queue begun-ok refl))
        (concludes working evaluation [] (first _ []) refl))
      ((tt, λ h. refl), λ h. refl)

abbrev shown_items : List TaskListItem
shown_items =
    record {
      id = "-------------------------------";
      expression = "(2 + 2) * -4";
      status = "completed";
      created_at = 7;
    }
    ∷ []

listed_answer :
    serve sample_jwt sample_rpc sample_service.jwt_manager direct sample_libs.parse_uuid 900
      "Bearer signed" get_tasks
    ≡ (200, list_body shown_items)
unfolding service Tasks.get_user_tasks list_user_tasks get_tasks_by_user_id
listed_answer = refl

serve-IsOwnListing_example :
    IsOwnListing sample_rpc sample_libs direct sample_jwt sample_service.jwt_manager 900
      "Bearer signed" concluded.db shown_items
serve-IsOwnListing_example =
    serve-IsOwnListing sample_rpc sample_libs direct whole concluded.db sample_jwt
      sample_service.jwt_manager sample_libs.parse_uuid 900 "Bearer signed" shown_items
      (λ req r h. h) listed_answer
