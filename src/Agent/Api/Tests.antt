-- ===== src/Agent/Api/Tests.antt =====
-- A request to the Agent, and the theorem on its documentation at it.
use ya_lyceum_go_project_fin.Prelude.{ℕ, ◌≡◌, refl, ap, some, [], ◌∷◌}
use ya_lyceum_go_project_fin.Prelude.Texts.{split, lowers_to}
use ya_lyceum_go_project_fin.Errors.{new, ok, err}
use ya_lyceum_go_project_fin.Float64.{pos}
use ya_lyceum_go_project_fin.Float64.Sample.{Num, fin, sample}
use ya_lyceum_go_project_fin.Database.Sample.{working, two_tasks}
use ya_lyceum_go_project_fin.Orchestrator.Server.Sample.{sample_libs}
use ya_lyceum_go_project_fin.Agent.Tokens.{verify}
use ya_lyceum_go_project_fin.Agent.Auth.Sample.{sample_service}
use ya_lyceum_go_project_fin.Agent.Tasks.{Client, task_details}
use ya_lyceum_go_project_fin.Agent.App.{get_task, serve, handle}
use ya_lyceum_go_project_fin.Agent.Json.{Json, object, string_value, number_value, encode_task_body}
use ya_lyceum_go_project_fin.Agent.Docs.{get, literal, parameter}
use ya_lyceum_go_project_fin.Agent.Docs.Responses.{IsDocumented}
use ya_lyceum_go_project_fin.Agent.Api.{to_task_route, Moment, respond}
use ya_lyceum_go_project_fin.Agent.Api.Documented.{IsGuarded, respond-IsDocumented}

-- Answers with one completed task.
abbrev answering : Client Num
answering = record {
  submit_expression = λ req. err (new "unused");
  list_user_tasks = λ req. err (new "unused");
  get_task_details = λ req. ok (record {
    id = req.task_id;
    expression = "2 + 2";
    status = "completed";
    result = fin (pos 4);
    error_message = "";
    created_at = "2026-01-01T00:00:00Z";
    updated_at = "2026-01-01T00:00:00Z";
  });
  parse_time = λ s. ok 7;
  zero_time = 0;
}

abbrev moment : Moment
moment = record { salt = ""; call = working; now = 900; later = 900 }

abbrev shown : Json Num
shown = object (
    ("id", string_value "-----")
    ∷ ("expression", string_value "2 + 2")
    ∷ ("status", string_value "completed")
    ∷ ("result", number_value (fin (pos 4)))
    ∷ ("created_at", string_value "seven")
    ∷ ("updated_at", string_value "seven")
    ∷ [])

answer :
    respond sample
      (λ t. some "seven")
      sample_service
      answering
      sample_libs.parse_uuid
      moment
      (to_task_route "Bearer signed" (get_task "-----"))
      two_tasks
    ≡ (200, some shown)
unfolding respond serve handle split lowers_to verify task_details encode_task_body
answer = refl

encoded :
    (respond sample
      (λ t. some "seven")
      sample_service
      answering
      sample_libs.parse_uuid
      moment
      (to_task_route "Bearer signed" (get_task "-----"))
      two_tasks).1
    ≡ some shown
encoded = ap (λ a. a.1) answer

abbrev status : ℕ
status =
    (respond sample (λ t. some "seven") sample_service answering sample_libs.parse_uuid moment
      (to_task_route "Bearer signed" (get_task "-----")) two_tasks).0

respond-IsDocumented_example :
    (d : IsDocumented get (literal "tasks" ∷ parameter "id" ∷ []) status shown) × IsGuarded sample
      (λ t. some "seven")
      sample_service
      answering
      sample_libs.parse_uuid
      moment
      (to_task_route "Bearer signed" (get_task "-----"))
      d.operation
      status
respond-IsDocumented_example =
    respond-IsDocumented sample (λ t. some "seven") sample_service answering sample_libs.parse_uuid
      moment (to_task_route "Bearer signed" (get_task "-----")) two_tasks shown encoded
