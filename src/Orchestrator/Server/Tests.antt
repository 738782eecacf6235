-- ===== src/Orchestrator/Server/Tests.antt =====
-- The service on a database with two tasks, and the theorems at it.
use ya_lyceum_go_project_fin.Prelude.{
  String, ◌≡◌, ◌≢◌, ◌↔◌, refl, false, none, some, [], ◌∷◌, arith,
}
use ya_lyceum_go_project_fin.Errors.{status, not_found, invalid_argument, ok, err}
use ya_lyceum_go_project_fin.Grpc.Sample.{sample_rpc}
use ya_lyceum_go_project_fin.Float64.{negsuc}
use ya_lyceum_go_project_fin.Float64.Sample.{Num, fin, sample}
use ya_lyceum_go_project_fin.Database.{Task, Db, find_task}
use ya_lyceum_go_project_fin.Database.Sample.{
  working, two_tasks, print_dashes, first_task, second_task,
}
use ya_lyceum_go_project_fin.Orchestrator.Evaluator.{evaluate}
use ya_lyceum_go_project_fin.Orchestrator.Evaluator.Sample.{calm, product, evaluator}
use ya_lyceum_go_project_fin.Orchestrator.Repository.{
  Fetch, create_task, get_task_by_id, get_tasks_by_user_id, update_task_status, set_task_result,
}
use ya_lyceum_go_project_fin.Orchestrator.Messages.{
  ExpressionRequest, TaskDetailsRequest, UserTasksResponse,
}
use ya_lyceum_go_project_fin.Orchestrator.Server.Sample.{sample_libs}
use ya_lyceum_go_project_fin.Orchestrator.Server.{
  Evaluation, Submitted, is_not_finite, outcome, task_details, task_brief, submit_expression,
  begin_evaluation, start_evaluation, get_task_details, list_user_tasks,
}
use ya_lyceum_go_project_fin.Orchestrator.Server.Submit.{IsAccepted, submit_expression-IsAccepted}
use ya_lyceum_go_project_fin.Orchestrator.Server.Rejections.{
  IsRejection, submit_expression-IsRejection,
}
use ya_lyceum_go_project_fin.Orchestrator.Server.Endings.{ended, start_evaluation_lem}
use ya_lyceum_go_project_fin.Orchestrator.Server.Details.{
  IsShown, get_task_details-IsShown, get_task_details_tells,
}

service : Unit {0}
unfolding submit_expression create_task start_evaluation evaluator outcome update_task_status
    set_task_result get_task_details get_task_by_id list_user_tasks get_tasks_by_user_id
    print_dashes begin_evaluation
service = tt

abbrev submission : ExpressionRequest
submission = record { user_id = "--"; expression = "(2 + 2) * -4" }

abbrev submitted : Submitted Num
submitted = submit_expression sample_rpc sample_libs working submission two_tasks

submitted-answer : submitted.answer ≡ ok (record { task_id = "-------------------------------" })
unfolding service
submitted-answer = refl

submit_expression-IsAccepted_example :
    IsAccepted sample_rpc sample_libs working submission two_tasks submitted
      (record { task_id = "-------------------------------" })
submit_expression-IsAccepted_example =
    submit_expression-IsAccepted sample_rpc sample_libs working submission two_tasks
      (record { task_id = "-------------------------------" }) submitted-answer

abbrev empty_submission : ExpressionRequest
empty_submission = record { user_id = "--"; expression = "" }

empty_submission-answer :
    (submit_expression sample_rpc sample_libs working empty_submission two_tasks).answer
    ≡ err (status invalid_argument "expression не может быть пустым")
unfolding service
empty_submission-answer = refl

submit_expression-IsRejection_example :
    IsRejection sample_rpc sample_libs working empty_submission two_tasks
      (submit_expression sample_rpc sample_libs working empty_submission two_tasks)
      (status invalid_argument "expression не может быть пустым")
submit_expression-IsRejection_example =
    submit_expression-IsRejection sample_rpc sample_libs working empty_submission two_tasks
      (status invalid_argument "expression не может быть пустым") empty_submission-answer

abbrev second_evaluation : Evaluation Num
second_evaluation = record {
  task_id = 20;
  user_id = 1;
  expression = "(2 + 2) * -4";
  root = product;
}

abbrev second_task_done : Task Num
second_task_done = record second_task {
  status = "completed";
  result = some (fin (negsuc 15));
  updated_at = 500;
}

evaluated :
    find_task 20
      (start_evaluation sample sample_rpc working working
        (λ d. d)
        calm
        second_evaluation
        two_tasks).tasks
    ≡ some second_task_done
unfolding service
evaluated = refl

start_evaluation_example :
    (find_task 20
        (start_evaluation sample sample_rpc working working
          (λ d. d)
          calm
          second_evaluation
          two_tasks).tasks
      ≡ some (
          ended sample sample_rpc working working
            (outcome sample sample_rpc calm second_evaluation)
            second_task))
    × ((v : Num)
        → outcome sample sample_rpc calm second_evaluation ≡ ok v
        → (evaluate sample sample_rpc calm [] product ≡ ok v) × (is_not_finite sample v ≡ false))
start_evaluation_example =
    start_evaluation_lem sample sample_rpc working working (λ d. d) calm second_evaluation two_tasks
      second_task refl refl refl (λ d. refl)

abbrev first_request : TaskDetailsRequest
first_request = record { user_id = "--"; task_id = "-----------" }

get_task_details_tests :
    (get_task_details sample sample_rpc sample_libs working first_request two_tasks
      ≡ ok (task_details sample sample_rpc sample_libs first_task))
    × (get_task_details sample sample_rpc sample_libs working
          (record { user_id = ""; task_id = "-" })
          two_tasks
        ≡ err
            (status invalid_argument "невалидный формат userID в запросе: invalid UUID length: 0"))
unfolding service
get_task_details_tests = (refl, refl)

get_task_details-IsShown_example :
    (get_task_details sample sample_rpc sample_libs working first_request two_tasks
      ≡ ok (task_details sample sample_rpc sample_libs first_task))
    ↔ IsShown sample sample_rpc sample_libs first_request two_tasks
        (task_details sample sample_rpc sample_libs first_task)
get_task_details-IsShown_example =
    get_task_details-IsShown sample sample_rpc sample_libs working first_request two_tasks
      (task_details sample sample_rpc sample_libs first_task) refl

-- The user 2 asks for the task 10 of the user 1, and for the same id in an empty table.
abbrev curious_request : TaskDetailsRequest
curious_request = record { user_id = "---"; task_id = "-----------" }

abbrev no_tasks : Db Num
no_tasks = record two_tasks { tasks = [] }

get_task_details_tells_example :
    (m : String) × (m' : String) × (get_task_details sample sample_rpc sample_libs working
        curious_request two_tasks
      ≡ err (status not_found m))
    × (get_task_details sample sample_rpc sample_libs working curious_request no_tasks
        ≡ err (status not_found m'))
    × (m ≢ m')
get_task_details_tells_example =
    get_task_details_tells sample sample_rpc sample_libs working curious_request two_tasks no_tasks
      10 2 first_task refl refl refl refl (λ e. omega arith) refl

abbrev whole : Fetch
whole = record { query_err = none; scan_err = λ i. none; cut = none }

abbrev all_tasks : UserTasksResponse
all_tasks = record {
  tasks =
      task_brief sample_rpc sample_libs second_task
      ∷ task_brief sample_rpc sample_libs first_task
      ∷ [];
}

listed_tasks :
    list_user_tasks sample_rpc sample_libs whole (record { user_id = "--" }) two_tasks
    ≡ ok all_tasks
unfolding service
listed_tasks = refl
