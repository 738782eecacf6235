-- ===== src/System/Completion.antt =====
-- An expression with a value, from the request that submits it to the request that shows the value.
use ya_lyceum_go_project_fin.Prelude.{
  ℕ, String, ◌≡◌, ◌⊎◌, inl, inr, refl, sym, ap, ◌∙◌, subst, true, false, none, some, [], arith,
}
use ya_lyceum_go_project_fin.Errors.{ok}
use ya_lyceum_go_project_fin.Grpc.{Rpc}
use ya_lyceum_go_project_fin.Float64.{Arith}
use ya_lyceum_go_project_fin.Worker.Calculator.{CalculationTimeConfig, Sleep}
use ya_lyceum_go_project_fin.Database.{Uuid, Task, Call, find_task}
use ya_lyceum_go_project_fin.Database.Tables.{find_task-id}
use ya_lyceum_go_project_fin.Orchestrator.Ast.{Node}
use ya_lyceum_go_project_fin.Orchestrator.Evaluator.{Place, Surroundings}
use ya_lyceum_go_project_fin.Orchestrator.Evaluator.Meaning.{IsHonest, Denotes}
use ya_lyceum_go_project_fin.Orchestrator.Evaluator.Complete.{IsReliable, evaluate_complete}
use ya_lyceum_go_project_fin.Orchestrator.Repository.{status_completed}
use ya_lyceum_go_project_fin.Orchestrator.Repository.Rows.{new_row}
use ya_lyceum_go_project_fin.Orchestrator.Messages.{
  ExpressionRequest, ExpressionResponse, TaskDetailsRequest,
}
use ya_lyceum_go_project_fin.Orchestrator.Server.{
  Libraries, Evaluation, submit_expression, is_not_finite, check_result, outcome, task_details,
  get_task_details,
}
use ya_lyceum_go_project_fin.Orchestrator.Server.Submit.{IsAccepted, submit_expression-IsAccepted}
use ya_lyceum_go_project_fin.Orchestrator.Server.Details.{
  task_details-shown_response, get_task_details-IsShown,
}
use ya_lyceum_go_project_fin.Agent.Tokens.{Jwt, Manager}
use ya_lyceum_go_project_fin.Agent.Middleware.Laws.{IsBearer}
use ya_lyceum_go_project_fin.Agent.Tasks.{Client, TaskDetails, details_of}
use ya_lyceum_go_project_fin.Agent.Tasks.Handlers.{accepted_body, details_body, handle_get_task}
use ya_lyceum_go_project_fin.Agent.Tasks.Laws.{handle_calculate-accepted, handle_get_task-answered}
use ya_lyceum_go_project_fin.Agent.App.{post_calculate, get_task, handle, serve}
use ya_lyceum_go_project_fin.Agent.App.Laws.{serve-IsBearer}
use ya_lyceum_go_project_fin.System.{queued, System, queue, Reaches}
use ya_lyceum_go_project_fin.System.Running.{is_running, goroutine_of-is_running}
use ya_lyceum_go_project_fin.System.Sound.{IsSound}
use ya_lyceum_go_project_fin.System.Invariant.{submitted-IsSound, Reaches-IsSound}
use ya_lyceum_go_project_fin.Orchestrator.Server.Growth.{submit_expression-Growth}
use ya_lyceum_go_project_fin.System.Phases.{Keeps}
use ya_lyceum_go_project_fin.System.Kept.{Reaches-Keeps}
use ya_lyceum_go_project_fin.System.Undisturbed.{AreUndisturbed, IsOnWay, under_way, arrived}
use ya_lyceum_go_project_fin.System.Arrival.{Reaches-IsOnWay, CanArrive, IsOnWay-CanArrive}

module _ {F : Type 0} (fl : Arith F) (rpc : Rpc) where
  outcome_complete :
      (cfg : CalculationTimeConfig) (w : Surroundings F) (sleep : Place → Sleep) (ev : Evaluation F)
      (v : F)
      → IsReliable fl rpc cfg w sleep
      → Denotes fl ev.root v
      → is_not_finite fl v ≡ false
      → outcome fl rpc w ev ≡ ok v
  unfolding outcome check_result
  outcome_complete cfg w sleep ev v reliable value finite =
      rw (evaluate_complete fl rpc cfg w sleep reliable [] ev.root v value, finite) refl

module _ {F : Type 0} (fl : Arith F) (rpc : Rpc) (libs : Libraries F)
    (around : Uuid → Surroundings F) (cfg : CalculationTimeConfig)
    (sleep : Uuid → Place → Sleep) where
  -- The state in which SubmitExpression leaves the system.
  abbrev pub submission : Call → ExpressionRequest → System F → System F
  submission c req s = record {
    db = (submit_expression rpc libs c req s.db).db;
    running = queue (submit_expression rpc libs c req s.db).started s.running;
  }

  submission-IsOnWay :
      (c : Call) (req : ExpressionRequest) (answer : ExpressionResponse) (s : System F) (v : F)
      → (a : IsAccepted rpc libs c req s.db (submit_expression rpc libs c req s.db) answer)
      → IsOnWay fl rpc libs around a.evaluation v (submission c req s)
  submission-IsOnWay c req answer s v a = under_way queued (inl refl) (rw a.started (ground arith))

  -- What GET /tasks/:id answers for the row.
  shown_row :
      (c : Call) (s : System F) (client : Client F) (user_id id : String) (k u : Uuid)
      (row : Task F)
      → ((req : TaskDetailsRequest)
          → client.get_task_details req ≡ get_task_details fl rpc libs c req s.db)
      → c.fault ≡ none
      → libs.parse_uuid id ≡ ok k
      → libs.parse_uuid user_id ≡ ok u
      → find_task k s.db.tasks ≡ some row
      → row.id ≡ k
      → row.user_id ≡ u
      → handle_get_task rpc client libs.parse_uuid (some user_id) id
        ≡ (200, details_body (details_of client (task_details fl rpc libs row)))
  shown_row c s client user_id id k u row relays calm named owner found here own =
      let req : TaskDetailsRequest = record { user_id = user_id; task_id = id } in
      let answered =
        (get_task_details-IsShown fl rpc libs c req s.db (task_details fl rpc libs row) calm).1
          (record {
            task = row;
            named = named ∙ ap ok (sym here);
            owner = owner ∙ ap ok (sym own);
            stored = ap (λ j. find_task j s.db.tasks) here ∙ found;
            fields = task_details-shown_response fl rpc libs row;
          }) in
      handle_get_task-answered rpc client libs.parse_uuid user_id id k
        (task_details fl rpc libs row) named (relays req ∙ answered)

  IsOnWay-shown :
      (c c' : Call) (t : System F) (client : Client F) (user_id x id : String) (u : Uuid)
      (ev : Evaluation F) (v : F)
      → ((k : Uuid) → IsHonest fl rpc cfg (around k) (sleep k))
      → outcome fl rpc (around ev.task_id) ev ≡ ok v
      → IsSound fl libs t.db t.running
      → ((req : TaskDetailsRequest)
          → client.get_task_details req ≡ get_task_details fl rpc libs c' req t.db)
      → c'.fault ≡ none
      → libs.parse_uuid id ≡ ok ev.task_id
      → libs.parse_uuid user_id ≡ ok u
      → Keeps (some (new_row c u x)) (find_task ev.task_id t.db.tasks)
      → IsOnWay fl rpc libs around ev v t
      → ((is_running ev.task_id t.running ≡ true) × CanArrive fl rpc libs around ev.task_id v t)
        ⊎ ((d : TaskDetails F) × (handle_get_task rpc client libs.parse_uuid (some user_id) id
              ≡ (200, details_body d))
            × (d.expression ≡ x)
            × (d.status ≡ status_completed)
            × (d.result ≡ some v))
  IsOnWay-shown c c' t client user_id x id u ev v honest value sound relays calm named owner kept
        (under_way st before here) =
      inl (
        goroutine_of-is_running ev.task_id t.running _ here,
        IsOnWay-CanArrive fl rpc libs around cfg sleep c' ev v t honest value calm sound
            (under_way st before here),
      )
  IsOnWay-shown c c' t client user_id x id u ev v honest value sound relays calm named owner kept
        (arrived row idle found completed result) =
      let (_, same_user, same_expression, _) : Keeps (some (new_row c u x)) (some row) =
        rw found at kept in
      inr (
        details_of client (task_details fl rpc libs row),
        shown_row c' t client user_id id ev.task_id u row relays calm named owner found
            (find_task-id ev.task_id t.db.tasks row found) same_user,
        same_expression,
        completed,
        rw (completed, result) refl,
      )

  -- If the client of the workers is honest in every evaluation and loses nothing of the task's
  -- own, and POST /calculate with a bearer token of a user is answered with 202 and an id,
  -- through a client of the Orchestrator that gives SubmitExpression's answer in a sound state,
  -- for an expression with a finite value, then after every run of the system on which the
  -- process does not end and no statement on the task meets a fault, the task is still evaluated
  -- and can be completed with the value by statements that meet no fault, or GET /tasks/:id with
  -- a bearer token of the same user, read with no fault, is answered with 200 and the
  -- expression, `completed` and the value.
  pub post_calculate-get_task :
      (jwt : Jwt) (manager : Manager) (now now' : ℕ)
      (auth_header auth_header' user_id x id : String) (k : Uuid) (root : Node F) (v : F)
      (client client' : Client F) (c c' : Call) (s t : System F)
      → ((k : Uuid) → IsHonest fl rpc cfg (around k) (sleep k))
      → IsReliable fl rpc cfg (around k) (sleep k)
      → IsSound fl libs s.db s.running
      → ((req : ExpressionRequest)
          → client.submit_expression req ≡ (submit_expression rpc libs c req s.db).answer)
      → ((req : TaskDetailsRequest)
          → client'.get_task_details req ≡ get_task_details fl rpc libs c' req t.db)
      → c'.fault ≡ none
      → IsBearer jwt rpc manager now auth_header user_id
      → IsBearer jwt rpc manager now' auth_header' user_id
      → libs.parse_uuid id ≡ ok k
      → libs.compile x ≡ ok root
      → Denotes fl root v
      → is_not_finite fl v ≡ false
      → serve jwt rpc manager client libs.parse_uuid now auth_header (post_calculate (some x))
        ≡ (202, accepted_body id)
      → (run : Reaches fl rpc libs around
          (submission c (record { user_id = user_id; expression = x }) s)
          t)
      → AreUndisturbed fl rpc libs around k run
      → ((is_running k t.running ≡ true) × CanArrive fl rpc libs around k v t)
        ⊎ ((d : TaskDetails F) × (serve jwt rpc manager client' libs.parse_uuid now' auth_header'
                (get_task id)
              ≡ (200, details_body d))
            × (d.expression ≡ x)
            × (d.status ≡ status_completed)
            × (d.result ≡ some v))
  unfolding handle
  post_calculate-get_task jwt manager now now' auth_header auth_header' user_id x id k root v client
        client' c c' s t honest reliable sound relays relays' calm bearer bearer' named compiled
        value finite accepted run undisturbed =
      let req : ExpressionRequest = record { user_id = user_id; expression = x } in
      let posted =
        (serve-IsBearer jwt rpc manager client libs.parse_uuid now auth_header
            (post_calculate (some x))).2
          user_id bearer in
      let answered = handle_calculate-accepted rpc client user_id x id (sym posted ∙ accepted) in
      let a =
        submit_expression-IsAccepted rpc libs c req s.db (record { task_id = id })
          (sym (relays req) ∙ answered) in
      let same : k ≡ a.evaluation.task_id =
        ground (arith, named, a.named, libs.parse_uuid-print_uuid a.evaluation.task_id) in
      let here : libs.parse_uuid id ≡ ok a.evaluation.task_id = named ∙ ap ok same in
      let denoted : Denotes fl a.evaluation.root v =
        subst (λ r. Denotes fl r v) (ground (arith, compiled, a.compiled)) value in
      let reached =
        outcome_complete fl rpc cfg (around a.evaluation.task_id) (sleep a.evaluation.task_id)
          a.evaluation v (subst (λ j. IsReliable fl rpc cfg (around j) (sleep j)) same reliable)
          denoted finite in
      let sound' =
        submitted-IsSound fl rpc libs c s.db s.running (submit_expression rpc libs c req s.db)
          (submit_expression-Growth rpc libs c s.db req) sound in
      let way =
        Reaches-IsOnWay fl rpc libs around cfg sleep a.evaluation v honest reached sound' run
          (subst (λ j. AreUndisturbed fl rpc libs around j run) same undisturbed)
          (submission-IsOnWay c req (record { task_id = id }) s v a) in
      let kept =
        Reaches-Keeps fl rpc libs around cfg sleep a.evaluation.task_id honest sound' run in
      let shown =
        IsOnWay-shown c c' t client' user_id x id a.evaluation.user_id a.evaluation v honest reached
          (Reaches-IsSound fl rpc libs around cfg sleep honest run sound') relays' calm here a.user
          (rw a.stored at kept) way in
      let got =
        (serve-IsBearer jwt rpc manager client' libs.parse_uuid now' auth_header' (get_task id)).2
          user_id bearer' in
      rw (same, got, handle) shown
