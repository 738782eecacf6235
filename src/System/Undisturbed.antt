-- ===== src/System/Undisturbed.antt =====
-- What becomes of a task whose own statements meet no fault, while the system goes on with others.
use ya_lyceum_go_project_fin.Prelude.{
  ◌≡◌, ◌⊎◌, inl, inr, refl, ap, false, none, some, List, ◌==◌, Bool-cases, arith,
}
use ya_lyceum_go_project_fin.Grpc.{Rpc}
use ya_lyceum_go_project_fin.Float64.{Arith}
use ya_lyceum_go_project_fin.Database.{Uuid, Task, Call, find_task}
use ya_lyceum_go_project_fin.Database.Tables.{has_task-eq_some}
use ya_lyceum_go_project_fin.Orchestrator.Evaluator.{Surroundings}
use ya_lyceum_go_project_fin.Orchestrator.Repository.{status_completed}
use ya_lyceum_go_project_fin.Orchestrator.Server.{Libraries, Evaluation, submit_expression}
use ya_lyceum_go_project_fin.System.{
  Stage, queued, evaluating, Goroutine, System, Picks, queue, Step, submits, registers, begins,
  fails, abandons, concludes, restarts, Reaches, at_start, after,
}
use ya_lyceum_go_project_fin.System.Running.{
  is_running, HasDistinctTasks, goroutine_of, Picks-goroutine_of, Picks-HasDistinctTasks,
  All-goroutine_of,
}
use ya_lyceum_go_project_fin.System.Sound.{IsLive, IsSound}
use ya_lyceum_go_project_fin.Orchestrator.Server.{Submitted}
use ya_lyceum_go_project_fin.Orchestrator.Messages.{ExpressionRequest}
use ya_lyceum_go_project_fin.Orchestrator.Server.Growth.{
  Growth, unchanged, orphaned, started, submit_expression-Growth,
}

module _ {F : Type 0} (fl : Arith F) (rpc : Rpc) (libs : Libraries F)
    (around : Uuid → Surroundings F) where
  -- The process does not end, and a statement on the task `k` meets no fault.
  abbrev pub IsUndisturbed : (k : Uuid) {s t : System F} → Step fl rpc libs around s t → Type 0
  IsUndisturbed k (submits c req e) = Unit
  IsUndisturbed k (registers c login password_hash e) = Unit
  IsUndisturbed k (begins c ev rest p began e) = ev.task_id ≡ k → c.fault ≡ none
  IsUndisturbed k (fails c ev rest x p failed e) = ev.task_id ≡ k → c.fault ≡ none
  IsUndisturbed k (abandons c ev rest x p e) = ev.task_id ≡ k → c.fault ≡ none
  IsUndisturbed k (concludes c ev rest p e) = ev.task_id ≡ k → c.fault ≡ none
  IsUndisturbed k (restarts e) = ⊥

  abbrev pub AreUndisturbed : (k : Uuid) {s t : System F} → Reaches fl rpc libs around s t → Type 0
  AreUndisturbed k at_start = Unit
  AreUndisturbed k (after r st) = AreUndisturbed k r × IsUndisturbed k st

  -- A goroutine evaluates the task, or it is completed with the value.
  pub data IsOnWay (ev : Evaluation F) (v : F) (s : System F) : Type 0 where
    under_way :
        (st : Stage)
        → (st ≡ queued) ⊎ (st ≡ evaluating)
        → goroutine_of ev.task_id s.running ≡ some (record { evaluation = ev; stage = st })
        → IsOnWay ev v s
    arrived :
        (t : Task F)
        → is_running ev.task_id s.running ≡ false
        → find_task ev.task_id s.db.tasks ≡ some t
        → t.status ≡ status_completed
        → t.result ≡ some v
        → IsOnWay ev v s

  pub stored_task :
      (ev : Evaluation F) (st : Stage) (s : System F)
      → IsSound fl libs s.db s.running
      → goroutine_of ev.task_id s.running ≡ some (record { evaluation = ev; stage = st })
      → (t : Task F) × (find_task ev.task_id s.db.tasks ≡ some t)
  stored_task ev st s sound here =
      let l = All-goroutine_of (IsLive fl libs s.db.tasks) ev.task_id s.running _ sound.live here in
      (l.task, l.stored)

  -- The goroutine that takes a step is that of the task, or the task's goroutine is among the others.
  pub picked :
      (ev ev' : Evaluation F) (st st' : Stage) (running rest : List (Goroutine F))
      → HasDistinctTasks running
      → Picks running (record { evaluation = ev'; stage = st' }) rest
      → goroutine_of ev.task_id running ≡ some (record { evaluation = ev; stage = st })
      → ((ev' ≡ ev) × (st' ≡ st) × (is_running ev.task_id rest ≡ false))
        ⊎ (((ev'.task_id == ev.task_id) ≡ false)
            × (goroutine_of ev.task_id rest ≡ some (record { evaluation = ev; stage = st })))
  picked ev ev' st st' running rest distinct p here =
      let all = Picks-goroutine_of ev.task_id p distinct in
      let (alone, _) = Picks-HasDistinctTasks p distinct in
      elim (Bool-cases (ev'.task_id == ev.task_id)) [
        | inl same ↦
            let this : ◌≡◌ {A = Goroutine F} (record { evaluation = ev'; stage = st' })
                (record { evaluation = ev; stage = st }) =
              ground (arith, all) in
            inl (ap (λ r. r.evaluation) this, ap (λ r. r.stage) this, ground (arith, alone))
        | inr differs ↦ inr (differs, ground (arith, all))
      ]

  pub goroutine_of-queue :
      (c : Call) (req : ExpressionRequest) (s : System F) (k : Uuid) (t : Task F)
      → find_task k s.db.tasks ≡ some t
      → goroutine_of k (queue (submit_expression rpc libs c req s.db).started s.running)
        ≡ goroutine_of k s.running
  goroutine_of-queue c req s k t found =
      go (submit_expression rpc libs c req s.db) (submit_expression-Growth rpc libs c s.db req)
    where
      go :
          (x : Submitted F)
          → Growth rpc libs c s.db x
          → goroutine_of k (queue x.started s.running) ≡ goroutine_of k s.running
      go x (unchanged quiet same) = rw quiet refl
      go x (orphaned u e quiet fresh owner grown) = rw quiet refl
      go x (started ev now named compiled fresh owner grown) =
          rw now (ground (arith, has_task-eq_some k s.db.tasks t found))
