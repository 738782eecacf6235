-- ===== src/Orchestrator/Server/Details.antt =====
-- GetTaskDetails and ListUserTasks: who sees which tasks.
use ya_lyceum_go_project_fin.Prelude.{
  String, ◌≡◌, ◌≢◌, ◌↔◌, inl, inr, sym, ap, ◌∙◌, subst, Option, none, some, List, [], ◌∷◌, ◌++◌,
  map, ◌==◌, arith, Option-cases, if◌then◌else◌,
}
use mathlib.Core.List.{Perm, append_assoc, append-nil}
use text.Mathlib.TextLemmas.{append_cancel_left}
use ya_lyceum_go_project_fin.Errors.{status, not_found, sprint, Result, ok, err, Result-cases}
use ya_lyceum_go_project_fin.Grpc.{Rpc}
use ya_lyceum_go_project_fin.Float64.{Arith}
use ya_lyceum_go_project_fin.Database.{Uuid, Task, Db, Call, find_task, of_user}
use ya_lyceum_go_project_fin.Database.Tables.{find_task-id}
use ya_lyceum_go_project_fin.Orchestrator.Repository.{Fetch, get_task_by_id, get_tasks_by_user_id}
use ya_lyceum_go_project_fin.Orchestrator.Repository.Listing.{
  IsNewestFirst, IsOwned, get_tasks_by_user_id_lem,
}
use ya_lyceum_go_project_fin.Orchestrator.Messages.{
  TaskDetailsRequest, TaskDetailsResponse, UserTasksRequest, UserTasksResponse, TaskBrief,
}
use ya_lyceum_go_project_fin.Orchestrator.Server.{
  Libraries, task_details, get_task_details, task_brief, briefs, list_user_tasks,
}

different_ends : ◌≢◌ {A = String} " не найдена (или нет прав доступа)" " не найдена"
different_ends e = cc

texts_differ :
    (s : String)
    → sprint ("задача с ID " ∷ s ∷ " не найдена (или нет прав доступа)" ∷ [])
      ≢ sprint ("задача с ID " ∷ s ∷ " не найдена" ∷ [])
texts_differ s e = different_ends (
    append_cancel_left s " не найдена (или нет прав доступа)" " не найдена"
      (append_cancel_left "задача с ID " _ _ e))

module _ {F : Type 0} (fl : Arith F) (rpc : Rpc) (libs : Libraries F) where
  -- What GetTaskDetails answers once both ids are parsed and the table is read with no fault.
  abbrev shown : TaskDetailsRequest → Uuid → Option (Task F) → Result (TaskDetailsResponse F)
  shown req user none =
      err (status not_found (sprint ("задача с ID " ∷ req.task_id ∷ " не найдена" ∷ [])))
  shown req user (some t) =
      if t.user_id == user
      then ok (task_details fl rpc libs t)
      else err (
          status not_found
            (sprint ("задача с ID " ∷ req.task_id ∷ " не найдена (или нет прав доступа)" ∷ [])))

  get_task_details-shown :
      (c : Call) (req : TaskDetailsRequest) (db : Db F) (k u : Uuid)
      → libs.parse_uuid req.task_id ≡ ok k
      → libs.parse_uuid req.user_id ≡ ok u
      → c.fault ≡ none
      → get_task_details fl rpc libs c req db ≡ shown req u (find_task k db.tasks)
  unfolding get_task_details get_task_by_id
  get_task_details-shown c req db k u parsed_task parsed_user calm = ground arith

  -- The fields of the answer for a row: its own columns, the ids and the times printed, and 0 and the
  -- empty text where the row has no result and no message.
  abbrev pub shown_response : Task F → TaskDetailsResponse F
  shown_response t = record {
    id = libs.print_uuid t.id;
    expression = t.expression;
    status = t.status;
    result = elim t.result [ none ↦ fl.zero | some v ↦ v ];
    error_message = elim t.error_message [ none ↦ "" | some m ↦ m ];
    created_at = libs.format_time t.created_at;
    updated_at = libs.format_time t.updated_at;
  }

  pub task_details-shown_response : (t : Task F) → task_details fl rpc libs t ≡ shown_response t
  task_details-shown_response t = elim (Option-cases t.result) [
    | inl none_yet ↦ elim (Option-cases t.error_message) [
      | inl silent ↦ rw (none_yet, silent)
      | inr (m, told) ↦ rw (none_yet, told)
    ]
    | inr (v, done) ↦ elim (Option-cases t.error_message) [
      | inl silent ↦ rw (done, silent)
      | inr (m, told) ↦ rw (done, told)
    ]
  ]

  -- What a shown task is: one of the table, of the requesting user, with the fields of the row.
  pub record IsShown (req : TaskDetailsRequest) (db : Db F) (response : TaskDetailsResponse F)
      : Type 0 where
    pub task : Task F
    pub named : libs.parse_uuid req.task_id ≡ ok task.id
    pub owner : libs.parse_uuid req.user_id ≡ ok task.user_id
    pub stored : find_task task.id db.tasks ≡ some task
    pub fields : response ≡ shown_response task

  shown-IsShown :
      (req : TaskDetailsRequest) (db : Db F) (response : TaskDetailsResponse F) (k u : Uuid)
      → libs.parse_uuid req.task_id ≡ ok k
      → libs.parse_uuid req.user_id ≡ ok u
      → shown req u (find_task k db.tasks) ≡ ok response
      → IsShown req db response
  shown-IsShown req db response k u parsed_task parsed_user h =
      elim (Option-cases (find_task k db.tasks)) [
        | inl missing ↦ cc (rw missing at h)
        | inr (t, found) ↦
            let id_k = find_task-id k db.tasks t found in
            record {
              task = t;
              named = parsed_task ∙ ap ok (sym id_k);
              owner = ground arith;
              stored = subst (λ j. find_task j db.tasks ≡ some t) (sym id_k) found;
              fields = ground (arith, task_details-shown_response t);
            }
      ]

  shown-own :
      (req : TaskDetailsRequest) (db : Db F) (response : TaskDetailsResponse F)
      → (s : IsShown req db response)
      → shown req s.task.user_id (find_task s.task.id db.tasks) ≡ ok response
  shown-own req db response s =
      ground (arith, s.stored, s.fields, task_details-shown_response s.task)

  get_task_details-parsed :
      (c : Call) (req : TaskDetailsRequest) (db : Db F) (response : TaskDetailsResponse F)
      → get_task_details fl rpc libs c req db ≡ ok response
      → (k : Uuid) × (u : Uuid) × (libs.parse_uuid req.task_id ≡ ok k)
        × (libs.parse_uuid req.user_id ≡ ok u)
  unfolding get_task_details
  get_task_details-parsed c req db response h = elim (Result-cases (libs.parse_uuid req.task_id)) [
    | inr (e, bad) ↦ cc (rw (bad, get_task_details) at h)
    | inl (k, parsed_task) ↦ elim (Result-cases (libs.parse_uuid req.user_id)) [
      | inr (e, bad) ↦ cc (rw (parsed_task, bad, get_task_details) at h)
      | inl (u, parsed_user) ↦ (k, u, parsed_task, parsed_user)
    ]
  ]

  -- GetTaskDetails, where the table is read with no fault, answers with a task exactly if the two ids
  -- of the request are valid and the table has a task with the one id that belongs to the user with the
  -- other; the answer then has the id, the expression, the status and the two times of that row, its
  -- result or else 0, and its message or else the empty text.
  pub get_task_details-IsShown :
      (c : Call) (req : TaskDetailsRequest) (db : Db F) (response : TaskDetailsResponse F)
      → c.fault ≡ none
      → (get_task_details fl rpc libs c req db ≡ ok response) ↔ IsShown req db response
  get_task_details-IsShown c req db response calm = (
    λ h.
        let (k, u, parsed_task, parsed_user) = get_task_details-parsed c req db response h in
        shown-IsShown req db response k u parsed_task parsed_user
          (sym (get_task_details-shown c req db k u parsed_task parsed_user calm) ∙ h),
    λ s.
        get_task_details-shown c req db s.task.id s.task.user_id s.named s.owner calm
        ∙ shown-own req db response s,
  )

  -- Where the ids are valid and the table is read with no fault, a task of another user and a task that
  -- is not there are both answered with NotFound, but with different messages.
  pub get_task_details_tells :
      (c : Call) (req : TaskDetailsRequest) (db db' : Db F) (k u : Uuid) (t : Task F)
      → c.fault ≡ none
      → libs.parse_uuid req.task_id ≡ ok k
      → libs.parse_uuid req.user_id ≡ ok u
      → find_task k db.tasks ≡ some t
      → t.user_id ≢ u
      → find_task k db'.tasks ≡ none
      → (m m' : String) × (get_task_details fl rpc libs c req db ≡ err (status not_found m))
        × (get_task_details fl rpc libs c req db' ≡ err (status not_found m'))
        × (m ≢ m')
  get_task_details_tells c req db db' k u t calm parsed_task parsed_user found foreign_task
        missing =
      (
        sprint ("задача с ID " ∷ req.task_id ∷ " не найдена (или нет прав доступа)" ∷ []),
        sprint ("задача с ID " ∷ req.task_id ∷ " не найдена" ∷ []),
        get_task_details-shown c req db k u parsed_task parsed_user calm
            ∙ (rw found (ground arith)),
        get_task_details-shown c req db' k u parsed_task parsed_user calm ∙ (rw missing),
        λ e. texts_differ req.task_id e,
      )

module _ {F : Type 0} (rpc : Rpc) (libs : Libraries F) where
  briefs-map :
      (ts : List (Task F)) (bs : List TaskBrief)
      → briefs rpc libs ts bs ≡ bs ++ map (task_brief rpc libs) ts
  unfolding briefs
  briefs-map [] bs = sym (append-nil bs)
  briefs-map (t ∷ ts) bs =
      briefs-map ts (bs ++ task_brief rpc libs t ∷ [])
      ∙ append_assoc bs (task_brief rpc libs t ∷ []) (map (task_brief rpc libs) ts)

  -- The tasks that a listing shows.
  pub record IsListing (req : UserTasksRequest) (db : Db F) (response : UserTasksResponse)
      : Type 0 where
    pub user : Uuid
    pub named : libs.parse_uuid req.user_id ≡ ok user
    pub tasks : List (Task F)
    pub shown_tasks : response.tasks ≡ map (task_brief rpc libs) tasks
    pub newest_first : IsNewestFirst tasks
    pub complete : Perm tasks (of_user user db.tasks)
    pub own : IsOwned user tasks

  listed :
      (f : Fetch) (req : UserTasksRequest) (db : Db F) (response : UserTasksResponse) (u : Uuid)
      (ts : List (Task F))
      → libs.parse_uuid req.user_id ≡ ok u
      → get_tasks_by_user_id rpc f u db ≡ ok ts
      → list_user_tasks rpc libs f req db ≡ ok response
      → IsListing req db response
  unfolding list_user_tasks
  listed f req db response u ts parsed fetched h =
      let (ordered, complete, own) = get_tasks_by_user_id_lem rpc f u db ts fetched in
      record {
        user = u;
        named = parsed;
        tasks = ts;
        shown_tasks = ground (arith, briefs-map ts []);
        newest_first = ordered;
        complete = complete;
        own = own;
      }

  -- A listing that ListUserTasks answers with no error shows every task of the requesting user once,
  -- no task of anyone else, the newest first.
  pub list_user_tasks-IsListing :
      (f : Fetch) (req : UserTasksRequest) (db : Db F) (response : UserTasksResponse)
      → list_user_tasks rpc libs f req db ≡ ok response
      → IsListing req db response
  unfolding list_user_tasks
  list_user_tasks-IsListing f req db response h =
      elim (Result-cases (libs.parse_uuid req.user_id)) [
        | inr (e, bad) ↦ cc (rw (bad, list_user_tasks) at h)
        | inl (u, parsed) ↦ elim (Result-cases (get_tasks_by_user_id rpc f u db)) [
          | inr (e, bad) ↦ cc (rw (parsed, bad, list_user_tasks) at h)
          | inl (ts, fetched) ↦ listed f req db response u ts parsed fetched h
        ]
      ]
