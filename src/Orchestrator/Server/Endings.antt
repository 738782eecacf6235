-- ===== src/Orchestrator/Server/Endings.antt =====
-- How an evaluation leaves its task.
use ya_lyceum_go_project_fin.Prelude.{◌≡◌, refl, sym, ◌∙◌, false, none, some, [], arith}
use ya_lyceum_go_project_fin.Errors.{Result, ok, err}
use ya_lyceum_go_project_fin.Grpc.{Rpc, message}
use ya_lyceum_go_project_fin.Float64.{Arith}
use ya_lyceum_go_project_fin.Worker.Calculator.{CalculationTimeConfig, Sleep}
use ya_lyceum_go_project_fin.Database.{Uuid, Task, Db, Call, find_task}
use ya_lyceum_go_project_fin.Database.Tables.{has_task-eq_some}
use ya_lyceum_go_project_fin.Orchestrator.Evaluator.{Place, Surroundings, evaluate}
use ya_lyceum_go_project_fin.Orchestrator.Evaluator.Meaning.{Denotes, IsHonest, evaluate_sound}
use ya_lyceum_go_project_fin.Orchestrator.Repository.{status_processing}
use ya_lyceum_go_project_fin.Orchestrator.Repository.Rows.{
  Write, to_status, to_result, to_error, written, run, run-find_task,
}
use ya_lyceum_go_project_fin.Orchestrator.Server.{
  Evaluation, is_not_finite, check_result, begin_evaluation, conclude_evaluation, outcome,
  continue_evaluation, start_evaluation,
}

module _ {F : Type 0} (fl : Arith F) (rpc : Rpc) where
  pub check_result-ok :
      (r : Result F) (v : F) → check_result fl r ≡ ok v → (r ≡ ok v) × (is_not_finite fl v ≡ false)
  unfolding check_result
  check_result-ok (ok x) v h = (ground arith, ground arith)
  check_result-ok (err e) v h = cc

  -- The last write of an evaluation.
  abbrev pub ending : Result F → Write F
  ending (ok v) = to_result v
  ending (err e) = to_error (message rpc e)

  pub conclude_evaluation-run :
      (c : Call) (id : Uuid) (r : Result F) (db : Db F)
      → conclude_evaluation rpc c id r db ≡ (run rpc c id (ending r) db).0
  unfolding conclude_evaluation
  conclude_evaluation-run c id (ok v) db = refl
  conclude_evaluation-run c id (err e) db = refl

  -- The row of a task after its evaluation.
  abbrev pub ended : Call → Call → Result F → Task F → Task F
  ended c c' r t = written c' (ending r) (written c (to_status status_processing) t)

  begun :
      (c : Call) (ev : Evaluation F) (db : Db F) (t : Task F)
      → c.fault ≡ none
      → find_task ev.task_id db.tasks ≡ some t
      → ((begin_evaluation rpc c ev db).1 ≡ ok tt)
        × (find_task ev.task_id (begin_evaluation rpc c ev db).0.tasks
            ≡ some (written c (to_status status_processing) t))
  unfolding begin_evaluation
  begun c ev db t calm found =
      let (result, row, _) = run-find_task rpc c ev.task_id (to_status status_processing) db calm in
      (
        ground (arith, result, has_task-eq_some ev.task_id db.tasks t found),
        ground (arith, row ev.task_id),
      )

  concluded :
      (c : Call) (id : Uuid) (r : Result F) (db : Db F) (t : Task F)
      → c.fault ≡ none
      → find_task id db.tasks ≡ some t
      → find_task id (conclude_evaluation rpc c id r db).tasks ≡ some (written c (ending r) t)
  concluded c id r db t calm found =
      let (_, row, _) = run-find_task rpc c id (ending r) db calm in
      rw (conclude_evaluation-run c id r db) (ground (arith, row id))

  continued :
      (c : Call) (meanwhile : Db F → Db F) (w : Surroundings F) (ev : Evaluation F)
      (x : Db F × Result (Unit {0}))
      → x.1 ≡ ok tt
      → continue_evaluation fl rpc c meanwhile w ev x
        ≡ conclude_evaluation rpc c ev.task_id (outcome fl rpc w ev) (meanwhile x.0)
  unfolding continue_evaluation
  continued c meanwhile w ev (db, ok _) h = refl
  continued c meanwhile w ev (db, err e) h = cc

  pub start_evaluation-conclude_evaluation :
      (c c' : Call) (meanwhile : Db F → Db F) (w : Surroundings F) (ev : Evaluation F) (db : Db F)
      → (begin_evaluation rpc c ev db).1 ≡ ok tt
      → start_evaluation fl rpc c c' meanwhile w ev db
        ≡ conclude_evaluation rpc c' ev.task_id
            (outcome fl rpc w ev)
            (meanwhile (begin_evaluation rpc c ev db).0)
  unfolding start_evaluation
  start_evaluation-conclude_evaluation c c' meanwhile w ev db =
      continued c' meanwhile w ev (begin_evaluation rpc c ev db)

  -- If the two writes of an evaluation meet no fault and the rest of the system leaves its task alone
  -- meanwhile, the task ends as the outcome says: completed with the value and no error message, or
  -- failed with the message and no value. It is completed only with the value that the evaluator
  -- returned, and never with an infinity or NaN.
  pub start_evaluation_lem :
      (c c' : Call) (meanwhile : Db F → Db F) (w : Surroundings F) (ev : Evaluation F) (db : Db F)
      (t : Task F)
      → c.fault ≡ none
      → c'.fault ≡ none
      → find_task ev.task_id db.tasks ≡ some t
      → ((d : Db F) → find_task ev.task_id (meanwhile d).tasks ≡ find_task ev.task_id d.tasks)
      → (find_task ev.task_id (start_evaluation fl rpc c c' meanwhile w ev db).tasks
          ≡ some (ended c c' (outcome fl rpc w ev) t))
        × ((v : F)
            → outcome fl rpc w ev ≡ ok v
            → (evaluate fl rpc w [] ev.root ≡ ok v) × (is_not_finite fl v ≡ false))
  unfolding start_evaluation outcome
  start_evaluation_lem c c' meanwhile w ev db t calm calm' found alone =
      let (began, row) = begun c ev db t calm found in
      (
        rw (continued c' meanwhile w ev (begin_evaluation rpc c ev db) began)
            (concluded c' ev.task_id (outcome fl rpc w ev) _ _ calm' (alone _ ∙ row)),
        check_result-ok (evaluate fl rpc w [] ev.root),
      )

  ended-result :
      (c c' : Call) (r : Result F) (t t' : Task F) (v : F)
      → some (ended c c' r t) ≡ some t'
      → t'.result ≡ some v
      → r ≡ ok v
  ended-result c c' (ok x) t t' v e h = ground arith
  ended-result c c' (err x) t t' v e h = ground arith

  -- If the client is honest, the two writes of an evaluation meet no fault and the rest of the system
  -- leaves its task alone meanwhile, a task that ends with a value has the value that its expression
  -- denotes, and it is no infinity and no NaN.
  pub start_evaluation_sound :
      (cfg : CalculationTimeConfig) (sleep : Place → Sleep) (c c' : Call) (meanwhile : Db F → Db F)
      (w : Surroundings F) (ev : Evaluation F) (db : Db F) (t t' : Task F) (v : F)
      → IsHonest fl rpc cfg w sleep
      → c.fault ≡ none
      → c'.fault ≡ none
      → find_task ev.task_id db.tasks ≡ some t
      → ((d : Db F) → find_task ev.task_id (meanwhile d).tasks ≡ find_task ev.task_id d.tasks)
      → find_task ev.task_id (start_evaluation fl rpc c c' meanwhile w ev db).tasks ≡ some t'
      → t'.result ≡ some v
      → Denotes fl ev.root v × (is_not_finite fl v ≡ false)
  start_evaluation_sound cfg sleep c c' meanwhile w ev db t t' v honest calm calm' found alone now
        done =
      let (row, value) = start_evaluation_lem c c' meanwhile w ev db t calm calm' found alone in
      let (returned, finite) =
        value v (ended-result c c' (outcome fl rpc w ev) t t' v (sym row ∙ now) done) in
      (evaluate_sound fl rpc cfg w sleep honest [] ev.root v returned, finite)
