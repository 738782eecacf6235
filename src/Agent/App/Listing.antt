-- ===== src/Agent/App/Listing.antt =====
-- What GET /tasks shows to a user, from the request to the table of tasks.
use mathlib.Core.List.{Perm, map-map, append_assoc, append-nil}
use ya_lyceum_go_project_fin.Prelude.{
  ℕ, String, ◌≡◌, inl, inr, sym, ap, ◌∙◌, some, List, [], ◌∷◌, ◌++◌, map, arith,
}
use ya_lyceum_go_project_fin.Errors.{Result, ok, Result-cases}
use ya_lyceum_go_project_fin.Grpc.{Rpc}
use ya_lyceum_go_project_fin.Database.{Uuid, Task, Db, of_user}
use ya_lyceum_go_project_fin.Orchestrator.Repository.{Fetch}
use ya_lyceum_go_project_fin.Orchestrator.Repository.Listing.{IsNewestFirst, IsOwned}
use ya_lyceum_go_project_fin.Orchestrator.Messages.{UserTasksRequest, UserTasksResponse, TaskBrief}
use ya_lyceum_go_project_fin.Orchestrator.Server.{Libraries, task_brief, list_user_tasks}
use ya_lyceum_go_project_fin.Orchestrator.Server.Details.{list_user_tasks-IsListing}
use ya_lyceum_go_project_fin.Agent.Tokens.{Jwt, Manager}
use ya_lyceum_go_project_fin.Agent.Middleware.{jwt_auth}
use ya_lyceum_go_project_fin.Agent.Middleware.Laws.{IsBearer, jwt_auth_iff}
use ya_lyceum_go_project_fin.Agent.Tasks.{
  Client, TaskListItem, read_time, list_item, list_items, get_user_tasks,
}
use ya_lyceum_go_project_fin.Agent.Tasks.Handlers.{list_body, handle_get_tasks}
use ya_lyceum_go_project_fin.Agent.App.{get_tasks, handle, serve}
use ya_lyceum_go_project_fin.Agent.App.Laws.{Passage-cases}

module _ {F : Type 0} (client : Client F) where
  list_items-map :
      (ts : List TaskBrief) (tasks : List TaskListItem)
      → list_items client ts tasks ≡ tasks ++ map (list_item client) ts
  unfolding list_items
  list_items-map [] tasks = sym (append-nil tasks)
  list_items-map (t ∷ ts) tasks =
      list_items-map ts (tasks ++ list_item client t ∷ [])
      ∙ append_assoc tasks (list_item client t ∷ []) (map (list_item client) ts)

module _ {F : Type 0} (rpc : Rpc) (libs : Libraries F) (client : Client F) where
  -- The item that shows a task.
  abbrev pub shown_item : Task F → TaskListItem
  shown_item t = record {
    id = libs.print_uuid t.id;
    expression = t.expression;
    status = t.status;
    created_at = read_time client (libs.format_time t.created_at);
  }

  handle_get_tasks-ok :
      (user_id : String) (items : List TaskListItem)
      → handle_get_tasks rpc client (some user_id) ≡ (200, list_body items)
      → (r : UserTasksResponse) × (client.list_user_tasks (record { user_id = user_id }) ≡ ok r)
        × (items ≡ map (list_item client) r.tasks)
  unfolding handle_get_tasks get_user_tasks
  handle_get_tasks-ok user_id items h =
      elim (Result-cases (client.list_user_tasks (record { user_id = user_id }))) [
        | inl (r, answered) ↦ (r, answered, ground (arith, list_items-map client r.tasks []))
        | inr (e, failed) ↦ ground arith
      ]

  -- What a listing tells its user.
  pub record IsOwnListing (jwt : Jwt) (manager : Manager) (now : ℕ) (auth_header : String)
      (db : Db F) (items : List TaskListItem) : Type 0 where
    pub user_id : String
    pub bearer : IsBearer jwt rpc manager now auth_header user_id
    pub user : Uuid
    pub named : libs.parse_uuid user_id ≡ ok user
    pub tasks : List (Task F)
    pub shown : items ≡ map shown_item tasks
    pub newest_first : IsNewestFirst tasks
    pub complete : Perm tasks (of_user user db.tasks)
    pub own : IsOwned user tasks

  -- Over a client that gives the answers of the Orchestrator's ListUserTasks, GET /tasks is answered with 200
  -- and a list only if the request has a verified bearer token; the list has one item for each task
  -- of the user of the token, with its id, expression, status and time, the newest first, and
  -- none for a task of anyone else.
  pub serve-IsOwnListing :
      (f : Fetch) (db : Db F) (jwt : Jwt) (manager : Manager) (parse_uuid : String → Result Uuid)
      (now : ℕ) (auth_header : String) (items : List TaskListItem)
      → ((req : UserTasksRequest) (r : UserTasksResponse)
          → client.list_user_tasks req ≡ ok r
          → list_user_tasks rpc libs f req db ≡ ok r)
      → serve jwt rpc manager client parse_uuid now auth_header get_tasks ≡ (200, list_body items)
      → IsOwnListing jwt manager now auth_header db items
  unfolding serve handle
  serve-IsOwnListing f db jwt manager parse_uuid now auth_header items forwarding h =
      elim (Passage-cases (jwt_auth jwt rpc manager now auth_header)) [
        | inl (m, stopped) ↦ cc (rw (stopped, serve) at h)
        | inr (user_id, let_through) ↦
            let (r, answered, same) =
              handle_get_tasks-ok user_id items (rw (let_through, serve) at h) in
            let l =
              list_user_tasks-IsListing rpc libs f (record { user_id = user_id }) db r
                (forwarding (record { user_id = user_id }) r answered) in
            record {
              user_id = user_id;
              bearer = (jwt_auth_iff jwt rpc manager now auth_header user_id).0 let_through;
              user = l.user;
              named = l.named;
              tasks = l.tasks;
              shown =
                  same
                  ∙ ap (map (list_item client)) l.shown_tasks
                  ∙ map-map (list_item client) (task_brief rpc libs) l.tasks;
              newest_first = l.newest_first;
              complete = l.complete;
              own = l.own;
            }
      ]
