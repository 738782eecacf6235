-- ===== src/Orchestrator/Repository/Tests.antt =====
-- The statements of the repository on a table with two tasks, and the theorems at them.
use ya_lyceum_go_project_fin.Prelude.{ℕ, ◌≡◌, refl, none, some, [], ◌∷◌, ◌==◌, arith, if◌then◌else◌}
use mathlib.Core.Option
use ya_lyceum_go_project_fin.Errors.{task_not_found, Error, sentinel, new, ok, err}
use ya_lyceum_go_project_fin.Grpc.Sample.{sample_rpc}
use ya_lyceum_go_project_fin.Float64.{pos}
use ya_lyceum_go_project_fin.Float64.Sample.{Num, fin}
use ya_lyceum_go_project_fin.Database.{Task, Db, find_task, has_task, of_user}
use ya_lyceum_go_project_fin.Database.Sample.{working, two_tasks, first_task, second_task}
use ya_lyceum_go_project_fin.Orchestrator.Repository.{
  Fetch, create_task, get_task_by_id, get_tasks_by_user_id, set_task_result,
}
use ya_lyceum_go_project_fin.Orchestrator.Repository.Rows.{
  to_result, new_row, written, run, run-find_task,
}
use ya_lyceum_go_project_fin.Orchestrator.Repository.Keys.{IsKeyed}

repository : Unit {0}
unfolding create_task get_task_by_id get_tasks_by_user_id set_task_result of_user
repository = tt

abbrev created_row : Task Num
created_row = new_row working 1 "1 / 3"

abbrev three_tasks : Db Num
three_tasks = record two_tasks { tasks = first_task ∷ second_task ∷ created_row ∷ [] }

creating : create_task sample_rpc working 1 "1 / 3" two_tasks ≡ (three_tasks, ok 30)
unfolding repository
creating = refl

-- A user that is not there violates the foreign key.
creating_for_nobody : (create_task sample_rpc working 2 "1 / 3" two_tasks).0 ≡ two_tasks
unfolding repository
creating_for_nobody = refl

run-find_task_example :
    ((run sample_rpc working 20 (to_result (fin (pos 8))) two_tasks).1
      ≡ (if has_task 20 two_tasks.tasks then ok tt else err (sentinel task_not_found)))
    × ((j : ℕ)
        → find_task j (run sample_rpc working 20 (to_result (fin (pos 8))) two_tasks).0.tasks ≡ (
            if 20 == j
            then Option.map
                (written working (to_result (fin (pos 8))))
                (find_task j two_tasks.tasks)
            else find_task j two_tasks.tasks))
    × ((run sample_rpc working 20 (to_result (fin (pos 8))) two_tasks).0.users ≡ two_tasks.users)
run-find_task_example = run-find_task sample_rpc working 20 (to_result (fin (pos 8))) two_tasks refl

-- Every row is read and scanned.
abbrev whole : Fetch
whole = record { query_err = none; scan_err = λ i. none; cut = none }

listing : get_tasks_by_user_id sample_rpc whole 1 two_tasks ≡ ok (second_task ∷ first_task ∷ [])
unfolding repository
listing = refl

listing_cut :
    (e : Error) × (get_tasks_by_user_id sample_rpc
        (record whole { cut = some (1, new "reset") })
        1
        two_tasks
      ≡ err e)
unfolding repository
listing_cut = (_, refl)

two_tasks-IsKeyed : IsKeyed two_tasks
two_tasks-IsKeyed = ground arith
