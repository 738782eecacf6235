-- ===== src/Orchestrator/Repository.antt =====
-- internal/orchestrator/repository/task_postgres.go: a method takes the database and what its
-- statement is given, and returns the database and Go's result.
pub mod Rows
pub mod Keys
pub mod Listing
mod Tests
use ya_lyceum_go_project_fin.Prelude.{
  ℕ, zero, suc, String, Bool, true, false, Option, none, some, List, [], ◌∷◌, ◌++◌, ◌==◌,
  if◌then◌else◌,
}
use ya_lyceum_go_project_fin.Errors.{
  task_not_found, task_database, Error, sentinel, wrap, no_rows, is_foreign, text, sprint, Result,
  ok, err, map_err, ◌>>=◌,
}
use ya_lyceum_go_project_fin.Grpc.{Rpc, message}
use ya_lyceum_go_project_fin.Database.{
  Uuid, Task, Db, Call, insert_task, update_task, select_task, newest_first, of_user,
}

abbrev pub status_pending : String
status_pending = "pending"

abbrev pub status_processing : String
status_processing = "processing"

abbrev pub status_completed : String
status_completed = "completed"

abbrev pub status_failed : String
status_failed = "failed"

-- `fmt.Errorf("%w: …%v", ErrDatabase, err)`
unfoldable pub database_error : Rpc → String → Error → Error
unfolding message
database_error rpc what e =
    wrap (sprint (text task_database ∷ ": " ∷ what ∷ message rpc e ∷ [])) (sentinel task_database)

lookup_error : Rpc → Error → Error
unfolding database_error is_foreign
lookup_error rpc e =
    if is_foreign no_rows e then sentinel task_not_found else database_error rpc "" e

-- What a `SELECT` of many rows may meet: an error of `Query`, of the `Scan` of a row by its number,
-- and an end before the last row with an error that `rows.Err()` gives.
pub record Fetch : Type 0 where
  pub query_err : Option Error
  pub scan_err : ℕ → Option Error
  pub cut : Option (ℕ × Error)

module _ {F : Type 0} (rpc : Rpc) where
  unfoldable pub create_task : Call → Uuid → String → Db F → Db F × Result Uuid
  unfolding insert_task database_error
  create_task c user_id expression db =
      let (db', r) = insert_task c user_id expression status_pending db in
      (db', map_err (database_error rpc "не удалось вставить задачу: ") r)

  unfoldable pub get_task_by_id : Call → Uuid → Db F → Result (Task F)
  unfolding select_task lookup_error
  get_task_by_id c id db = map_err (lookup_error rpc) (select_task c id db)

  -- The loop `for rows.Next()`, from the row number `i` on, with the tasks scanned so far.
  scan_rows : (ℕ → Option Error) → ℕ → List (Task F) → List (Task F) → Result (List (Task F))
  unfolding database_error
  scan_rows scan_err i [] tasks = ok tasks
  scan_rows scan_err i (t ∷ rows) tasks =
      let rest = scan_rows scan_err (suc i) rows (tasks ++ t ∷ []) in
      elim (scan_err i) [
        | none ↦ rest
        | some e ↦ err (database_error rpc "ошибка сканирования: " e)
      ]

  take : ℕ → List (Task F) → List (Task F)
  take zero ts = []
  take (suc n) [] = []
  take (suc n) (t ∷ ts) = t ∷ take n ts

  -- The rows that `rows.Next()` comes to.
  rows_read : Fetch → List (Task F) → List (Task F)
  unfolding take
  rows_read f rows = elim f.cut [ none ↦ rows | some (n, e) ↦ take n rows ]

  -- The test of `rows.Err()` after the loop.
  after_rows : Fetch → List (Task F) → Result (List (Task F))
  unfolding database_error
  after_rows f tasks = elim f.cut [
    | none ↦ ok tasks
    | some (n, e) ↦ err (database_error rpc "ошибка итерации: " e)
  ]

  unfoldable pub get_tasks_by_user_id : Fetch → Uuid → Db F → Result (List (Task F))
  unfolding scan_rows rows_read after_rows newest_first of_user database_error
  get_tasks_by_user_id f user_id db = elim f.query_err [
    | some e ↦ err (database_error rpc "" e)
    | none ↦
        scan_rows f.scan_err 0 (rows_read f (newest_first (of_user user_id db.tasks))) []
        >>= after_rows f
  ]

  -- What the three updates make of the result of `Exec`.
  updated : Db F × Result ℕ → Db F × Result (Unit {0})
  unfolding database_error
  updated (db, err e) = (db, err (database_error rpc "" e))
  updated (db, ok n) = (db, if n == 0 then err (sentinel task_not_found) else ok tt)

  unfoldable pub update_task_status : Call → Uuid → String → Db F → Db F × Result (Unit {0})
  unfolding update_task updated
  update_task_status c id status db =
      updated (update_task c id (λ t. record t { status = status; updated_at = c.now }) db)

  unfoldable pub set_task_result : Call → Uuid → F → Db F → Db F × Result (Unit {0})
  unfolding update_task updated
  set_task_result c id result db = updated (
      update_task c id
        (λ t. record t {
          status = status_completed;
          result = some result;
          error_message = none;
          updated_at = c.now;
        })
        db)

  unfoldable pub set_task_error : Call → Uuid → String → Db F → Db F × Result (Unit {0})
  unfolding update_task updated
  set_task_error c id error_message db = updated (
      update_task c id
        (λ t. record t {
          status = status_failed;
          error_message = some error_message;
          result = none;
          updated_at = c.now;
        })
        db)
