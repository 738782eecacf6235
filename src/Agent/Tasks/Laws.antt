-- ===== src/Agent/Tasks/Laws.antt =====
-- What the users of the Agent see of their tasks, over the Orchestrator's service.
use ya_lyceum_go_project_fin.Prelude.{
  String, ◌≡◌, ◌≢◌, inl, inr, refl, sym, subst, none, some, [], ◌∷◌, eq_iff, arith,
}
use ya_lyceum_go_project_fin.Errors.{
  text, sprint, agent_task_not_found, not_found, status, is, Result, ok, err, Result-cases,
}
use ya_lyceum_go_project_fin.Grpc.{Rpc, message}
use ya_lyceum_go_project_fin.Float64.{Arith}
use ya_lyceum_go_project_fin.Database.{Uuid, Task, Db, Call, find_task}
use ya_lyceum_go_project_fin.Orchestrator.Messages.{TaskDetailsRequest, TaskDetailsResponse}
use ya_lyceum_go_project_fin.Orchestrator.Repository.{status_completed, status_failed}
use ya_lyceum_go_project_fin.Orchestrator.Server.{Libraries, get_task_details}
use ya_lyceum_go_project_fin.Orchestrator.Server.Details.{IsShown, get_task_details-IsShown}
use ya_lyceum_go_project_fin.Agent.Tasks.{
  details_error, Client, TaskDetails, details_of, submit_new_task, task_details,
}
use ya_lyceum_go_project_fin.Agent.Tasks.Handlers.{
  failure_body, accepted_body, details_body, handle_calculate, handle_get_task,
}

module _ {F : Type 0} (fl : Arith F) (rpc : Rpc) (libs : Libraries F) (client : Client F) (c : Call)
    (db : Db F) where
  -- A response without an error was given by the Orchestrator's GetTaskDetails on the database.
  abbrev pub IsForwarding : Type 0
  IsForwarding =
      (req : TaskDetailsRequest) (r : TaskDetailsResponse F)
      → client.get_task_details req ≡ ok r
      → get_task_details fl rpc libs c req db ≡ ok r

  -- The row behind the details that a user sees.
  pub record IsOwnTask (user_id task_id : String) (d : TaskDetails F) : Type 0 where
    pub task : Task F
    pub stored : find_task task.id db.tasks ≡ some task
    pub named : libs.parse_uuid task_id ≡ ok task.id
    pub owner : libs.parse_uuid user_id ≡ ok task.user_id
    pub expression : d.expression ≡ task.expression
    pub status : d.status ≡ task.status
    pub value : (v : F) → task.status ≡ status_completed → task.result ≡ some v → d.result ≡ some v
    pub no_value : task.status ≢ status_completed → d.result ≡ none
    pub failure :
        (m : String)
        → task.status ≡ status_failed
        → task.error_message ≡ some m
        → m ≢ ""
        → d.error_message ≡ some m
    pub no_failure : task.status ≢ status_failed → d.error_message ≡ none

  handle_get_task-ok :
      (user_id task_id : String) (d : TaskDetails F)
      → handle_get_task rpc client libs.parse_uuid (some user_id) task_id ≡ (200, details_body d)
      → (r : TaskDetailsResponse F) × (client.get_task_details
            (record { user_id = user_id; task_id = task_id })
          ≡ ok r)
        × (d ≡ details_of client r)
  unfolding handle_get_task task_details
  handle_get_task-ok user_id task_id d h = elim (Result-cases (libs.parse_uuid task_id)) [
    | inr (e, bad) ↦ cc (rw (bad, handle_get_task) at h)
    | inl (k, parsed) ↦
        elim (Result-cases
          (client.get_task_details (record { user_id = user_id; task_id = task_id }))) [
            | inl (r, answered) ↦ (r, answered, ground arith)
            | inr (e, failed) ↦ ground arith
          ]
  ]

  shown-IsOwnTask :
      (user_id task_id : String) (r : TaskDetailsResponse F)
      → IsShown fl rpc libs (record { user_id = user_id; task_id = task_id }) db r
      → IsOwnTask user_id task_id (details_of client r)
  shown-IsOwnTask user_id task_id r s = rw s.fields (record {
    task = s.task;
    stored = s.stored;
    named = s.named;
    owner = s.owner;
    expression = refl;
    status = refl;
    value = λ v done found. ground (arith, eq_iff s.task.status status_completed);
    no_value = λ n. ground (arith, eq_iff s.task.status status_completed);
    failure = λ m done found n. ground (arith, eq_iff s.task.status status_failed, eq_iff m "");
    no_failure = λ n. ground (arith, eq_iff s.task.status status_failed);
  })

  -- GET /tasks/:id over an Orchestrator whose table is read with no fault answers with 200 only for a
  -- task of the user, with its expression and its status; with the value of a row that is
  -- completed and of no other, and with the message of a row that failed and of no other.
  pub handle_get_task-IsOwnTask :
      IsForwarding
      → c.fault ≡ none
      → (user_id task_id : String) (d : TaskDetails F)
      → handle_get_task rpc client libs.parse_uuid (some user_id) task_id ≡ (200, details_body d)
      → IsOwnTask user_id task_id d
  handle_get_task-IsOwnTask forwarding calm user_id task_id d h =
      let (r, answered, same) = handle_get_task-ok user_id task_id d h in
      let req : TaskDetailsRequest = record { user_id = user_id; task_id = task_id } in
      subst (IsOwnTask user_id task_id) (sym same) (
        shown-IsOwnTask user_id task_id r
          ((get_task_details-IsShown fl rpc libs c req db r calm).0 (forwarding req r answered)))

module _ {F : Type 0} (rpc : Rpc) (client : Client F) where
  -- Where the id in the path is valid and the Orchestrator answers NotFound, GET /tasks/:id is answered
  -- with 404, and the message is the Agent's own followed by the Orchestrator's.
  pub handle_get_task_not_found :
      (parse_uuid : String → Result Uuid) (user_id task_id : String) (k : Uuid) (m : String)
      → parse_uuid task_id ≡ ok k
      → client.get_task_details (record { user_id = user_id; task_id = task_id })
        ≡ err (status not_found m)
      → handle_get_task rpc client parse_uuid (some user_id) task_id ≡ (
        404,
        failure_body (sprint (text agent_task_not_found ∷ ": " ∷ rpc.status_text not_found m ∷ [])),
      )
  unfolding handle_get_task task_details is message details_error
  handle_get_task_not_found parse_uuid user_id task_id k m parsed failed = rw (
    parsed,
    failed,
    handle_get_task,
    task_details,
    details_error,
    rpc.from_error-status not_found m,
  )

  pub handle_get_task-answered :
      (parse_uuid : String → Result Uuid) (user_id task_id : String) (k : Uuid)
      (r : TaskDetailsResponse F)
      → parse_uuid task_id ≡ ok k
      → client.get_task_details (record { user_id = user_id; task_id = task_id }) ≡ ok r
      → handle_get_task rpc client parse_uuid (some user_id) task_id
        ≡ (200, details_body (details_of client r))
  unfolding handle_get_task task_details
  handle_get_task-answered parse_uuid user_id task_id k r parsed answered =
      rw (parsed, answered, handle_get_task, task_details)

  pub handle_calculate-accepted :
      (user_id x id : String)
      → handle_calculate rpc client (some user_id) (some x) ≡ (202, accepted_body id)
      → client.submit_expression (record { user_id = user_id; expression = x })
        ≡ ok (record { task_id = id })
  unfolding handle_calculate submit_new_task
  handle_calculate-accepted user_id x id h =
      elim (Result-cases
        (client.submit_expression (record { user_id = user_id; expression = x }))) [
          | inl (r, answered) ↦ ground arith
          | inr (e, failed) ↦ ground arith
        ]
