-- ===== src/System/Answers.antt =====
-- What a user of the Agent is shown of a task, from the request to the three services behind it.
use ya_lyceum_go_project_fin.Prelude.{
  ℕ, String, ◌≡◌, ◌≢◌, refl, false, Option, inl, inr, sym, ◌∙◌, subst, none, some, str_eq, eq_iff,
  Bool-cases, arith,
}
use ya_lyceum_go_project_fin.Grpc.{Rpc}
use ya_lyceum_go_project_fin.Float64.{Arith}
use ya_lyceum_go_project_fin.Worker.Calculator.{CalculationTimeConfig, Sleep}
use ya_lyceum_go_project_fin.Database.{Uuid, Call}
use ya_lyceum_go_project_fin.Orchestrator.Evaluator.{Place, Surroundings}
use ya_lyceum_go_project_fin.Orchestrator.Evaluator.Meaning.{IsHonest}
use ya_lyceum_go_project_fin.Orchestrator.Repository.{status_completed}
use ya_lyceum_go_project_fin.Orchestrator.Server.{Libraries, is_not_finite}
use ya_lyceum_go_project_fin.Agent.Tokens.{Jwt, Manager}
use ya_lyceum_go_project_fin.Agent.Middleware.{jwt_auth}
use ya_lyceum_go_project_fin.Agent.Middleware.Laws.{IsBearer, jwt_auth_iff}
use ya_lyceum_go_project_fin.Agent.Tasks.{Client, TaskDetails}
use ya_lyceum_go_project_fin.Agent.Tasks.Handlers.{details_body, handle_get_task}
use ya_lyceum_go_project_fin.Agent.Tasks.Laws.{IsForwarding, IsOwnTask, handle_get_task-IsOwnTask}
use ya_lyceum_go_project_fin.Agent.Json.{number_field}
use ya_lyceum_go_project_fin.Agent.App.{get_task, handle, serve}
use ya_lyceum_go_project_fin.Agent.App.Laws.{Passage-cases}
use ya_lyceum_go_project_fin.System.{System, Reaches}
use ya_lyceum_go_project_fin.System.Sound.{IsValueOf}
use ya_lyceum_go_project_fin.System.Tasks.{empty_system, completed_sound}

module _ {F : Type 0} (fl : Arith F) (rpc : Rpc) (libs : Libraries F) (client : Client F) where
  -- What an answer with the details of a task tells its user.
  pub record IsAnswer (jwt : Jwt) (manager : Manager) (now : ℕ) (auth_header task_id : String)
      (c : Call) (s : System F) (d : TaskDetails F) : Type 0 where
    pub user_id : String
    pub bearer : IsBearer jwt rpc manager now auth_header user_id
    pub own : IsOwnTask fl rpc libs client c s.db user_id task_id d
    pub value :
        (v : F)
        → d.result ≡ some v
        → (d.status ≡ status_completed) × IsValueOf fl libs d.expression v
    pub completed : d.status ≡ status_completed → (v : F) × (d.result ≡ some v)
    pub encodable : number_field fl "result" d.result ≢ none

  serve-details :
      (jwt : Jwt) (manager : Manager) (now : ℕ) (auth_header task_id : String) (d : TaskDetails F)
      → serve jwt rpc manager client libs.parse_uuid now auth_header (get_task task_id)
        ≡ (200, details_body d)
      → (user_id : String) × IsBearer jwt rpc manager now auth_header user_id
        × (handle_get_task rpc client libs.parse_uuid (some user_id) task_id
            ≡ (200, details_body d))
  unfolding serve handle
  serve-details jwt manager now auth_header task_id d h =
      elim (Passage-cases (jwt_auth jwt rpc manager now auth_header)) [
        | inl (m, stopped) ↦ cc (rw (stopped, serve) at h)
        | inr (user_id, let_through) ↦ (
          user_id,
          (jwt_auth_iff jwt rpc manager now auth_header user_id).0 let_through,
          rw (let_through, serve) at h,
        )
      ]

  result-completed :
      (c : Call) (s : System F) (user_id task_id : String) (d : TaskDetails F) (v : F)
      → (o : IsOwnTask fl rpc libs client c s.db user_id task_id d) → d.result ≡ some v
      → o.task.status ≡ status_completed
  result-completed c s user_id task_id d v o shown =
      elim (Bool-cases (str_eq o.task.status status_completed)) [
        | inl same ↦ (eq_iff o.task.status status_completed).0 same
        | inr differs ↦
            let empty =
              o.no_value (λ same. ground (arith, (eq_iff o.task.status status_completed).1 same)) in
            cc
      ]

  finite-encodable :
      (result : Option F)
      → ((v : F) → result ≡ some v → is_not_finite fl v ≡ false)
      → number_field fl "result" result ≢ none
  finite-encodable none finite h = cc
  finite-encodable (some v) finite h = cc (rw (finite v refl) at h)

  -- If the client of the workers is honest in every evaluation, and the Agent's client gives answers of the
  -- Orchestrator's GetTaskDetails, read with no fault in a state that the system reaches from empty tables, then
  -- GET /tasks/:id is answered with 200 and a task only if the request has a verified bearer token
  -- and the task belongs to the user of the token; the answer shows a result exactly if its status
  -- is `completed`, and the result is a value that the shown expression denotes, no infinity and no NaN,
  -- so that it can be written as JSON.
  pub serve-IsAnswer :
      (around : Uuid → Surroundings F) (cfg : CalculationTimeConfig) (sleep : Uuid → Place → Sleep)
      (s : System F) (c : Call) (jwt : Jwt) (manager : Manager) (now : ℕ)
      (auth_header task_id : String) (d : TaskDetails F)
      → ((k : Uuid) → IsHonest fl rpc cfg (around k) (sleep k))
      → Reaches fl rpc libs around empty_system s
      → c.fault ≡ none
      → IsForwarding fl rpc libs client c s.db
      → serve jwt rpc manager client libs.parse_uuid now auth_header (get_task task_id)
        ≡ (200, details_body d)
      → IsAnswer jwt manager now auth_header task_id c s d
  serve-IsAnswer around cfg sleep s c jwt manager now auth_header task_id d honest reached calm
        forwarding answered =
      let (user_id, bearer, handled) =
        serve-details jwt manager now auth_header task_id d answered in
      let own : IsOwnTask fl rpc libs client c s.db user_id task_id d =
        handle_get_task-IsOwnTask fl rpc libs client c s.db forwarding calm user_id task_id d
          handled in
      let (has_value, sound) =
        completed_sound fl rpc libs around cfg sleep s own.task.id own.task honest reached
          own.stored in
      let value : (v : F)
          → d.result ≡ some v
          → (d.status ≡ status_completed) × IsValueOf fl libs d.expression v =
        λ v shown.
          let done = result-completed c s user_id task_id d v own shown in
          let (x, result, value) = has_value done in
          let same : x ≡ v = ground (arith, own.value x done result) in
          (
            own.status ∙ done,
            rw own.expression (subst (IsValueOf fl libs own.task.expression) same value),
          ) in
      record {
        user_id = user_id;
        bearer = bearer;
        own = own;
        value = value;
        completed = λ done.
            let here = sym own.status ∙ done in
            let (x, result, value) = has_value here in (x, own.value x here result);
        encodable =
            finite-encodable d.result
              (λ v shown. let (_, (_, _, _, finite)) = value v shown in finite);
      }
