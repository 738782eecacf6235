-- ===== src/System/Sample.antt =====
-- One user and one task, from the working to the end.
use ya_lyceum_go_project_fin.Prelude.{◌≡◌, refl, none, some, [], ◌∷◌}
use ya_lyceum_go_project_fin.Errors.{ok}
use ya_lyceum_go_project_fin.Grpc.Sample.{sample_rpc}
use ya_lyceum_go_project_fin.Float64.{negsuc}
use ya_lyceum_go_project_fin.Float64.Sample.{Num, fin, sample}
use ya_lyceum_go_project_fin.Database.{Uuid, Task, find_task}
use ya_lyceum_go_project_fin.Database.Sample.{working, print_dashes}
use ya_lyceum_go_project_fin.Worker.Sample.{delays, timer}
use ya_lyceum_go_project_fin.Orchestrator.Evaluator.{Surroundings}
use ya_lyceum_go_project_fin.Orchestrator.Evaluator.Meaning.{IsHonest}
use ya_lyceum_go_project_fin.Orchestrator.Evaluator.Sample.{calm, calm-IsHonest, product, evaluator}
use ya_lyceum_go_project_fin.Orchestrator.Repository.{
  create_task, get_task_by_id, update_task_status, set_task_result, set_task_error,
}
use ya_lyceum_go_project_fin.Orchestrator.Messages.{ExpressionRequest}
use ya_lyceum_go_project_fin.Orchestrator.Server.{
  Evaluation, submit_expression, begin_evaluation, conclude_evaluation, outcome, get_task_details,
}
use ya_lyceum_go_project_fin.Orchestrator.Server.Sample.{sample_libs}
use ya_lyceum_go_project_fin.Agent.Users.{create_user}
use ya_lyceum_go_project_fin.Agent.Auth.Sample.{bob_id}
use ya_lyceum_go_project_fin.System.{
  queued, evaluating, System, Picks, first, queue, Step, submits, registers, begins, concludes,
  restarts, Reaches, at_start, after,
}
use ya_lyceum_go_project_fin.System.Sound.{IsSound}
use ya_lyceum_go_project_fin.System.Invariant.{Reaches-IsSound}
use ya_lyceum_go_project_fin.System.Tasks.{empty_system, empty_system-IsSound}

service : Unit {0}
unfolding create_user submit_expression create_task begin_evaluation conclude_evaluation evaluator
    outcome update_task_status set_task_result set_task_error get_task_details get_task_by_id
    print_dashes
service = tt

abbrev pub everywhere : Uuid → Surroundings Num
everywhere k = calm

pub everywhere-IsHonest : (k : Uuid) → IsHonest sample sample_rpc delays (everywhere k) (λ p. timer)
everywhere-IsHonest k = calm-IsHonest

abbrev pub registered : System Num
registered = record {
  db = (create_user sample_rpc working "alice" "$2a$10$" (empty_system {F = Num}).db).0;
  running = [];
}

abbrev pub submission : ExpressionRequest
submission = record { user_id = bob_id; expression = "(2 + 2) * -4" }

abbrev pub submitted : System Num
submitted = record {
  db = (submit_expression sample_rpc sample_libs working submission registered.db).db;
  running =
      queue (submit_expression sample_rpc sample_libs working submission registered.db).started [];
}

abbrev pub evaluation : Evaluation Num
evaluation = record { task_id = 30; user_id = 30; expression = "(2 + 2) * -4"; root = product }

abbrev pub begun : System Num
begun = record {
  db = (begin_evaluation sample_rpc working evaluation submitted.db).0;
  running = record { evaluation = evaluation; stage = evaluating } ∷ [];
}

abbrev pub concluded : System Num
concluded = record {
  db =
      conclude_evaluation sample_rpc working 30 (outcome sample sample_rpc calm evaluation)
        begun.db;
  running = [];
}

pub submitted-queue :
    Picks submitted.running (record { evaluation = evaluation; stage = queued }) []
unfolding service
submitted-queue = first _ []

pub begun-ok : (begin_evaluation sample_rpc working evaluation submitted.db).1 ≡ ok tt
unfolding service
begun-ok = refl

pub submitted-reached : Reaches sample sample_rpc sample_libs everywhere empty_system submitted
submitted-reached =
    after (after at_start (registers working "alice" "$2a$10$" refl))
      (submits working submission refl)

pub begun-Step : Step sample sample_rpc sample_libs everywhere submitted begun
begun-Step = begins working evaluation [] submitted-queue begun-ok refl

pub concluded-Step : Step sample sample_rpc sample_libs everywhere begun concluded
concluded-Step = concludes working evaluation [] (first _ []) refl

pub concluded-reached : Reaches sample sample_rpc sample_libs everywhere empty_system concluded
concluded-reached = after (after submitted-reached begun-Step) concluded-Step

pub restarted-Step :
    Step sample sample_rpc sample_libs everywhere submitted (record submitted { running = [] })
restarted-Step = restarts refl

abbrev pub pending_task : Task Num
pending_task = record {
  id = 30;
  user_id = 30;
  expression = "(2 + 2) * -4";
  status = "pending";
  result = none;
  error_message = none;
  created_at = 500;
  updated_at = 500;
}

abbrev pub done_task : Task Num
done_task = record pending_task { status = "completed"; result = some (fin (negsuc 15)) }

pub submitted-row : find_task 30 submitted.db.tasks ≡ some pending_task
unfolding service
submitted-row = refl

pub concluded-row : find_task 30 concluded.db.tasks ≡ some done_task
unfolding service
concluded-row = refl

pub submitted-IsSound : IsSound sample sample_libs submitted.db submitted.running
submitted-IsSound =
    Reaches-IsSound sample sample_rpc sample_libs everywhere delays (λ k p. timer)
      everywhere-IsHonest submitted-reached
      (empty_system-IsSound sample sample_rpc sample_libs everywhere)

pub concluded-IsSound : IsSound sample sample_libs concluded.db concluded.running
concluded-IsSound =
    Reaches-IsSound sample sample_rpc sample_libs everywhere delays (λ k p. timer)
      everywhere-IsHonest concluded-reached
      (empty_system-IsSound sample sample_rpc sample_libs everywhere)

pub registered-IsSound : IsSound sample sample_libs registered.db registered.running
registered-IsSound =
    Reaches-IsSound sample sample_rpc sample_libs everywhere delays (λ k p. timer)
      everywhere-IsHonest (after at_start (registers working "alice" "$2a$10$" refl))
      (empty_system-IsSound sample sample_rpc sample_libs everywhere)
