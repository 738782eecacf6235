-- ===== src/System/Tests.antt =====
-- The theorems at the states of one user's task.
mod Requests
use ya_lyceum_go_project_fin.Prelude.{◌∷◌, ◌≡◌, inl, refl, none, some, []}
use mathlib.Core.Option
use ya_lyceum_go_project_fin.Errors.{Error, new, ok, err}
use ya_lyceum_go_project_fin.Grpc.Sample.{sample_rpc}
use ya_lyceum_go_project_fin.Float64.{negsuc}
use ya_lyceum_go_project_fin.Float64.Sample.{Num, fin, sample}
use ya_lyceum_go_project_fin.Database.{find_task}
use ya_lyceum_go_project_fin.Database.Sample.{working, lost, print_dashes}
use ya_lyceum_go_project_fin.Worker.Sample.{delays, timer}
use ya_lyceum_go_project_fin.Orchestrator.Evaluator.Sample.{calm, evaluator}
use ya_lyceum_go_project_fin.Orchestrator.Repository.{
  database_error, create_task, get_task_by_id, update_task_status, set_task_result, set_task_error,
}
use ya_lyceum_go_project_fin.Orchestrator.Messages.{TaskDetailsRequest}
use ya_lyceum_go_project_fin.Orchestrator.Server.{
  abandon, task_details, submit_expression, start_evaluation, begin_evaluation, conclude_evaluation,
  outcome, get_task_details,
}
use ya_lyceum_go_project_fin.Orchestrator.Server.Sample.{sample_libs}
use ya_lyceum_go_project_fin.Agent.Users.{create_user}
use ya_lyceum_go_project_fin.Agent.Auth.Sample.{sample_service, sample_jwt, bob_id}
use ya_lyceum_go_project_fin.Database.{Uuid}
use ya_lyceum_go_project_fin.System.{System, first, registers, Reaches, at_start, after}
use ya_lyceum_go_project_fin.System.{fails, abandons, abandoning}
use ya_lyceum_go_project_fin.System.Sound.{IsSound, IsValueOf}
use ya_lyceum_go_project_fin.System.Invariant.{Reaches-IsSound}
use ya_lyceum_go_project_fin.System.Phases.{Evolves}
use ya_lyceum_go_project_fin.System.Lifecycle.{action_of, Step-Evolves}
use ya_lyceum_go_project_fin.System.Tasks.{empty_system-IsSound, completed_sound}
use ya_lyceum_go_project_fin.System.Settled.{IsSettled, IsSettled-forever, ended_forever}
use ya_lyceum_go_project_fin.System.Endings.{CanEnd, submit_expression-CanEnd}
use ya_lyceum_go_project_fin.Prelude.Texts.{split, lowers_to}
use ya_lyceum_go_project_fin.Agent.Tokens.{verify}
use ya_lyceum_go_project_fin.Agent.Tasks as Tasks
use ya_lyceum_go_project_fin.Agent.Tasks.{Client, TaskDetails}
use ya_lyceum_go_project_fin.Agent.Tasks.Handlers.{details_body, handle_get_task}
use ya_lyceum_go_project_fin.Agent.App.{get_task, serve}
use ya_lyceum_go_project_fin.System.Answers.{IsAnswer, serve-IsAnswer}
use ya_lyceum_go_project_fin.System.Sample.{
  registered, submission, everywhere, everywhere-IsHonest, submitted, evaluation, begun, concluded,
  submitted-queue, begun-Step, begun-ok, concluded-reached, pending_task, done_task, submitted-row,
  concluded-row, registered-IsSound, submitted-IsSound, concluded-IsSound,
}

service : Unit {0}
unfolding abandon serve handle_get_task Tasks.task_details verify split lowers_to create_user
    submit_expression create_task begin_evaluation conclude_evaluation evaluator outcome
    update_task_status set_task_result set_task_error get_task_details get_task_by_id print_dashes
service = tt

Reaches-IsSound_example : IsSound sample sample_libs concluded.db []
Reaches-IsSound_example =
    Reaches-IsSound sample sample_rpc sample_libs everywhere delays (λ k p. timer)
      everywhere-IsHonest concluded-reached
      (empty_system-IsSound sample sample_rpc sample_libs everywhere)

Step-Evolves_example :
    Evolves
      (action_of sample sample_rpc sample_libs everywhere submitted begun begun-Step)
      (find_task 30 submitted.db.tasks)
      (find_task 30 begun.db.tasks)
Step-Evolves_example =
    Step-Evolves sample sample_rpc sample_libs everywhere submitted begun 30 submitted-IsSound
      begun-Step

completed_sound_example :
    (done_task.status ≡ "completed"
      → (v : Num) × (some (fin (negsuc 15)) ≡ some v)
        × IsValueOf sample sample_libs "(2 + 2) * -4" v)
    × ((v : Num)
        → some (fin (negsuc 15)) ≡ some v
        → (done_task.status ≡ "completed") × IsValueOf sample sample_libs "(2 + 2) * -4" v)
completed_sound_example =
    completed_sound sample sample_rpc sample_libs everywhere delays (λ k p. timer) concluded 30
      done_task everywhere-IsHonest concluded-reached concluded-row

abbrev details_request : TaskDetailsRequest
details_request = record { user_id = bob_id; task_id = "-------------------------------" }

concluded-answer :
    get_task_details sample sample_rpc sample_libs working details_request concluded.db
    ≡ ok (task_details sample sample_rpc sample_libs done_task)
unfolding service
concluded-answer = refl

abbrev abandoned : System Num
abandoned = record submitted { running = [] }

abbrev grown : System Num
grown = record {
  db = (create_user sample_rpc (record working { fresh_id = 2 }) "bob" "$2a$10$" abandoned.db).0;
  running = [];
}

-- The process ends between the insertion of the task and the first write of its goroutine.
IsSettled-forever_example : IsSettled 30 pending_task grown
IsSettled-forever_example =
    IsSettled-forever sample sample_rpc sample_libs everywhere {s = abandoned} 30 pending_task
      (after at_start (registers (record working { fresh_id = 2 }) "bob" "$2a$10$" refl))
      (refl, submitted-row)

abbrev concluded_and_grown : System Num
concluded_and_grown = record {
  db = (create_user sample_rpc (record working { fresh_id = 2 }) "bob" "$2a$10$" concluded.db).0;
  running = [];
}

ended_forever_example : find_task 30 concluded_and_grown.db.tasks ≡ some done_task
ended_forever_example =
    ended_forever sample sample_rpc sample_libs everywhere 30 done_task concluded-IsSound
      (after at_start (registers (record working { fresh_id = 2 }) "bob" "$2a$10$" refl))
      concluded-row (inl refl)

accepted-answer :
    (submit_expression sample_rpc sample_libs working submission registered.db).answer
    ≡ ok (record { task_id = "-------------------------------" })
unfolding service
accepted-answer = refl

submit_expression-CanEnd_example :
    (k : Uuid) × (sample_libs.parse_uuid "-------------------------------" ≡ ok k)
    × CanEnd sample sample_rpc sample_libs everywhere k "(2 + 2) * -4" submitted []
submit_expression-CanEnd_example =
    submit_expression-CanEnd sample sample_rpc sample_libs everywhere working working submission
      (record { task_id = "-------------------------------" }) registered refl registered-IsSound
      accepted-answer

abbrev lost_write : Error
unfolding database_error
lost_write = database_error sample_rpc "" (new "connection reset")

-- The first write takes effect and is reported as a failure, and the task is ended with its message.
abbrev misreported : System Num
misreported = record {
  db = (begin_evaluation sample_rpc lost evaluation submitted.db).0;
  running = record { evaluation = evaluation; stage = abandoning lost_write } ∷ [];
}

misreported-run :
    Reaches sample sample_rpc sample_libs everywhere submitted (record {
      db = abandon sample_rpc working evaluation lost_write misreported.db;
      running = [];
    })
unfolding service
misreported-run =
    after (after at_start (fails lost evaluation [] lost_write (first _ []) refl refl))
      (abandons working evaluation [] lost_write (first _ []) refl)

misreported_row :
    Option.map
      (λ t. t.status)
      (find_task 30 (abandon sample_rpc working evaluation lost_write misreported.db).tasks)
    ≡ some "failed"
unfolding service
misreported_row = refl
