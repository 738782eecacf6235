-- ===== src/Orchestrator/Repository/Rows.antt =====
-- What the methods of internal/orchestrator/repository/task_postgres.go do to the rows.
use ya_lyceum_go_project_fin.Prelude.{
  String, ◌≡◌, ◌⊎◌, inl, inr, refl, Option-cases, Bool-cases, true, false, none, some, [], ◌∷◌,
  ◌++◌, ◌==◌, arith, if◌then◌else◌,
}
use mathlib.Core.Option
use ya_lyceum_go_project_fin.Errors.{
  task_not_found, task_database, Error, sentinel, is, Result, ok, err,
}
use ya_lyceum_go_project_fin.Grpc.{Rpc}
use ya_lyceum_go_project_fin.Database.{
  Uuid, Task, Db, Call, Fault, find_task, has_task, has_user, update_rows, count_rows,
}
use ya_lyceum_go_project_fin.Database.Tables.{
  find_task-update_rows, find_task-append, find_task-eq_none, has_task-eq_some, count_rows-eq_zero,
}
use ya_lyceum_go_project_fin.Orchestrator.Repository.{
  status_pending, status_completed, status_failed, database_error, create_task, get_task_by_id,
  update_task_status, set_task_result, set_task_error,
}

-- The three updates, as one type of writes.
pub data Write (F : Type 0) : Type 0 where
  to_status : String → Write F
  to_result : F → Write F
  to_error : String → Write F

module _ {F : Type 0} where
  -- The row of a new task.
  abbrev pub new_row : Call → Uuid → String → Task F
  new_row c user_id expression = record {
    id = c.fresh_id;
    user_id = user_id;
    expression = expression;
    status = status_pending;
    result = none;
    error_message = none;
    created_at = c.now;
    updated_at = c.now;
  }

  abbrev pub written : Call → Write F → Task F → Task F
  written c (to_status s) t = record t { status = s; updated_at = c.now }
  written c (to_result v) t = record t {
    status = status_completed;
    result = some v;
    error_message = none;
    updated_at = c.now;
  }
  written c (to_error m) t = record t {
    status = status_failed;
    error_message = some m;
    result = none;
    updated_at = c.now;
  }

  abbrev pub run : Rpc → Call → Uuid → Write F → Db F → Db F × Result (Unit {0})
  run rpc c id (to_status s) db = update_task_status rpc c id s db
  run rpc c id (to_result v) db = set_task_result rpc c id v db
  run rpc c id (to_error m) db = set_task_error rpc c id m db

module _ {F : Type 0} (rpc : Rpc) (c : Call) where
  pub create_task-ok :
      (user_id id : Uuid) (expression : String) (db db' : Db F)
      → create_task rpc c user_id expression db ≡ (db', ok id)
      → (c.fault ≡ none)
        × (has_user user_id db.users ≡ true)
        × (has_task c.fresh_id db.tasks ≡ false)
        × (id ≡ c.fresh_id)
        × (db' ≡ record db { tasks = db.tasks ++ new_row c user_id expression ∷ [] })
  unfolding create_task
  create_task-ok user_id id expression db db' h =
      (ground arith, ground arith, ground arith, ground arith, ground arith)

  pub run-no_fault :
      (id : Uuid) (w : Write F) (db : Db F)
      → c.fault ≡ none
      → run rpc c id w db ≡ (
        record db { tasks = update_rows id (written c w) db.tasks },
        if count_rows id db.tasks == 0 then err (sentinel task_not_found) else ok tt,
      )
  unfolding update_task_status set_task_result set_task_error
  run-no_fault id (to_status s) db h = rw h
  run-no_fault id (to_result v) db h = rw h
  run-no_fault id (to_error m) db h = rw h

  pub written-id : (w : Write F) (t : Task F) → (written c w t).id ≡ t.id
  written-id (to_status s) t = refl
  written-id (to_result v) t = refl
  written-id (to_error m) t = refl

  -- An update that meets no fault succeeds exactly if the task exists, and is ErrTaskNotFound else;
  -- afterwards the task with that id has the written columns and its other columns as before, every
  -- other task is as it was, and so are the users.
  pub run-find_task :
      (id : Uuid) (w : Write F) (db : Db F)
      → c.fault ≡ none
      → ((run rpc c id w db).1
          ≡ (if has_task id db.tasks then ok tt else err (sentinel task_not_found)))
        × ((j : Uuid)
            → find_task j (run rpc c id w db).0.tasks ≡ (
                if id == j
                then Option.map (written c w) (find_task j db.tasks)
                else find_task j db.tasks))
        × ((run rpc c id w db).0.users ≡ db.users)
  run-find_task id w db h = rw (run-no_fault id w db h) (
    ground (arith, count_rows-eq_zero id db.tasks),
    λ j. find_task-update_rows id j (written c w) db.tasks (written-id w),
    refl,
  )

  pub run-written :
      (id : Uuid) (w : Write F) (db : Db F) (t : Task F)
      → c.fault ≡ none
      → find_task id db.tasks ≡ some t
      → ((run rpc c id w db).1 ≡ ok tt)
        × (find_task id (run rpc c id w db).0.tasks ≡ some (written c w t))
  run-written id w db t calm found =
      let (result, row, _) = run-find_task id w db calm in
      (ground (arith, result, has_task-eq_some id db.tasks t found), ground (arith, row id))

  -- An update that meets a fault reports ErrDatabase, and the table is as before unless the statement
  -- had taken effect.
  pub run_fault :
      (id : Uuid) (w : Write F) (db : Db F) (f : Fault)
      → c.fault ≡ some f
      → (e : Error) × ((run rpc c id w db).1 ≡ err e)
        × (is task_database e ≡ true)
        × ((run rpc c id w db).0 ≡ (
            if f.applied then record db { tasks = update_rows id (written c w) db.tasks } else db))
  unfolding update_task_status set_task_result set_task_error is
  run_fault id (to_status s) db f h = (database_error rpc "" f.error, rw h, refl, rw h)
  run_fault id (to_result v) db f h = (database_error rpc "" f.error, rw h, refl, rw h)
  run_fault id (to_error m) db f h = (database_error rpc "" f.error, rw h, refl, rw h)

  -- Creating a task and reading it back, with no fault in the reading, gives a pending task of that
  -- user with that expression, with no result and no error; and no task had that id before.
  pub get_task_by_id-create_task :
      (c' : Call) (user_id id : Uuid) (expression : String) (db db' : Db F)
      → create_task rpc c user_id expression db ≡ (db', ok id)
      → c'.fault ≡ none
      → (get_task_by_id rpc c' id db' ≡ ok (new_row c user_id expression))
        × (get_task_by_id rpc c' id db ≡ err (sentinel task_not_found))
  unfolding get_task_by_id
  get_task_by_id-create_task c' user_id id expression db db' h calm =
      let (no_fault, owner, fresh, is_fresh, grown) =
        create_task-ok user_id id expression db db' h in
      (
        ground (arith, find_task-append id db.tasks (new_row c user_id expression ∷ [])),
        ground (arith, find_task-eq_none id db.tasks),
      )

  pub create_task-cases :
      (user_id : Uuid) (expression : String) (db : Db F)
      → ((create_task rpc c user_id expression db).0 ≡ db)
        ⊎ ((has_task c.fresh_id db.tasks ≡ false)
            × (has_user user_id db.users ≡ true)
            × ((create_task rpc c user_id expression db).0
                ≡ record db { tasks = db.tasks ++ new_row c user_id expression ∷ [] }))
  unfolding create_task
  create_task-cases user_id expression db = ground arith

  -- An update takes effect as a whole or not at all; reported as a success, it has.
  pub run-cases :
      (id : Uuid) (w : Write F) (db : Db F)
      → (((run rpc c id w db).0 ≡ db) × ((e : Error) × ((run rpc c id w db).1 ≡ err e)))
        ⊎ ((run rpc c id w db).0 ≡ record db { tasks = update_rows id (written c w) db.tasks })
  run-cases id w db = elim (Option-cases c.fault) [
    | inl calm ↦ inr (rw (run-no_fault id w db calm) refl)
    | inr (f, faulty) ↦
        let (e, failed, _, after) = run_fault id w db f faulty in
        elim (Bool-cases f.applied) [
          | inl applied ↦ inr (rw (after, applied) refl)
          | inr lost ↦ inl (rw (after, lost) refl, (e, failed))
        ]
  ]
