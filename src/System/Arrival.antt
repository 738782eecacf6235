-- ===== src/System/Arrival.antt =====
-- A task whose evaluation succeeds, statement by statement, until it is completed.
use ya_lyceum_go_project_fin.Prelude.{
  ◌≡◌, ◌⊎◌, inl, inr, refl, ap, ◌∙◌, subst, false, none, some, List, arith,
}
use ya_lyceum_go_project_fin.Errors.{ok}
use ya_lyceum_go_project_fin.Grpc.{Rpc}
use ya_lyceum_go_project_fin.Float64.{Arith}
use ya_lyceum_go_project_fin.Worker.Calculator.{CalculationTimeConfig, Sleep}
use ya_lyceum_go_project_fin.Orchestrator.Evaluator.Meaning.{IsHonest}
use ya_lyceum_go_project_fin.System.Invariant.{Reaches-IsSound}
use ya_lyceum_go_project_fin.Database.{Uuid, Task, Call, find_task}
use ya_lyceum_go_project_fin.Orchestrator.Evaluator.{Place, Surroundings}
use ya_lyceum_go_project_fin.Orchestrator.Repository.{status_processing, status_completed}
use ya_lyceum_go_project_fin.Orchestrator.Repository.Rows.{
  to_status, to_result, written, run, run-written,
}
use ya_lyceum_go_project_fin.Orchestrator.Server.{
  Libraries, Evaluation, begin_evaluation, conclude_evaluation, outcome,
}
use ya_lyceum_go_project_fin.Orchestrator.Server.Endings.{conclude_evaluation-run}
use ya_lyceum_go_project_fin.System.{
  Stage, queued, evaluating, abandoning, Goroutine, System, Picks, first, Step, submits, registers,
  begins, fails, abandons, concludes, restarts, Reaches, at_start, after,
}
use ya_lyceum_go_project_fin.System.Running.{
  is_running, goroutine_of, goroutine_of-is_running, goroutine_of-Picks, Picks-HasDistinctTasks,
}
use ya_lyceum_go_project_fin.System.Sound.{IsSound}
use ya_lyceum_go_project_fin.System.Settled.{Step-IsSettled}
use ya_lyceum_go_project_fin.System.Undisturbed.{
  IsUndisturbed, AreUndisturbed, IsOnWay, under_way, arrived, stored_task, picked,
  goroutine_of-queue,
}

module _ {F : Type 0} (fl : Arith F) (rpc : Rpc) (libs : Libraries F)
    (around : Uuid → Surroundings F) where
  concluded-IsOnWay :
      (c : Call) (ev : Evaluation F) (v : F) (s : System F) (rest : List (Goroutine F)) (t : Task F)
      → outcome fl rpc (around ev.task_id) ev ≡ ok v
      → c.fault ≡ none
      → find_task ev.task_id s.db.tasks ≡ some t
      → is_running ev.task_id rest ≡ false
      → IsOnWay fl rpc libs around ev v (record {
        db = conclude_evaluation rpc c ev.task_id (outcome fl rpc (around ev.task_id) ev) s.db;
        running = rest;
      })
  concluded-IsOnWay c ev v s rest t value calm found alone =
      arrived (written c (to_result v) t) alone
        (rw (value, conclude_evaluation-run fl rpc c ev.task_id (ok v) s.db)
          ((run-written rpc c ev.task_id (to_result v) s.db t calm found).1))
        refl refl

  under_way-IsOnWay :
      (ev : Evaluation F) (v : F) (st : Stage) (s t : System F)
      → outcome fl rpc (around ev.task_id) ev ≡ ok v
      → IsSound fl libs s.db s.running
      → (step : Step fl rpc libs around s t) → IsUndisturbed fl rpc libs around ev.task_id step
      → (st ≡ queued) ⊎ (st ≡ evaluating)
      → goroutine_of ev.task_id s.running ≡ some (record { evaluation = ev; stage = st })
      → IsOnWay fl rpc libs around ev v t
  unfolding begin_evaluation
  under_way-IsOnWay ev v st s t value sound (submits c req e) calm before here =
      let (row, found) = stored_task fl rpc libs around ev st s sound here in
      rw e (
        under_way st before
          (goroutine_of-queue fl rpc libs around c req s ev.task_id row found ∙ here))
  under_way-IsOnWay ev v st s t value sound (registers c login password_hash e) calm before here =
      rw e (under_way st before here)
  under_way-IsOnWay ev v st s t value sound (begins c ev' rest p began e) calm before here =
      rw e (elim (picked fl rpc libs around ev ev' st queued s.running rest sound.distinct p here) [
        | inl (same, now, alone) ↦ rw same (under_way evaluating (inr refl) (ground arith))
        | inr (differs, there) ↦ under_way st before (ground (arith, there))
      ])
  under_way-IsOnWay ev v st s t value sound (fails c ev' rest x p failed e) calm before here =
      rw e (elim (picked fl rpc libs around ev ev' st queued s.running rest sound.distinct p here) [
        | inl (same, now, alone) ↦
            let (row, found) = stored_task fl rpc libs around ev st s sound here in
            let (began, _) =
              run-written rpc c ev'.task_id (to_status status_processing) s.db row
                (calm (ap (λ r. r.task_id) same)) (rw same found) in
            cc
        | inr (differs, there) ↦ under_way st before (ground (arith, there))
      ])
  under_way-IsOnWay ev v st s t value sound (abandons c ev' rest x p e) calm before here =
      rw e
        (elim (picked fl rpc libs around ev ev' st (abandoning x) s.running rest sound.distinct p
          here) [
            | inl (same, now, alone) ↦ elim before [ inl b ↦ cc | inr b ↦ cc ]
            | inr (differs, there) ↦ under_way st before there
          ])
  under_way-IsOnWay ev v st s t value sound (concludes c ev' rest p e) calm before here =
      rw e
        (elim (picked fl rpc libs around ev ev' st evaluating s.running rest sound.distinct p
          here) [
            | inl (same, now, alone) ↦
                let (row, found) = stored_task fl rpc libs around ev st s sound here in
                rw same (
                  concluded-IsOnWay c ev v s rest row value (calm (ap (λ r. r.task_id) same)) found
                    alone)
            | inr (differs, there) ↦ under_way st before there
          ])
  under_way-IsOnWay ev v st s t value sound (restarts e) calm before here = absurd calm

  pub Step-IsOnWay :
      (ev : Evaluation F) (v : F) (s t : System F)
      → outcome fl rpc (around ev.task_id) ev ≡ ok v
      → IsSound fl libs s.db s.running
      → (step : Step fl rpc libs around s t) → IsUndisturbed fl rpc libs around ev.task_id step
      → IsOnWay fl rpc libs around ev v s
      → IsOnWay fl rpc libs around ev v t
  Step-IsOnWay ev v s t value sound step calm (under_way st before here) =
      under_way-IsOnWay ev v st s t value sound step calm before here
  Step-IsOnWay ev v s t value sound step calm (arrived row alone found completed result) =
      let (alone', found') =
        Step-IsSettled fl rpc libs around s t ev.task_id row step (alone, found) in
      arrived row alone' found' completed result

  -- A task that is on its way to a value stays so, whatever else the system does, as long as no
  -- statement on it meets a fault and the process does not end.
  pub Reaches-IsOnWay :
      (cfg : CalculationTimeConfig) (sleep : Uuid → Place → Sleep) (ev : Evaluation F) (v : F)
      {s t : System F}
      → ((k : Uuid) → IsHonest fl rpc cfg (around k) (sleep k))
      → outcome fl rpc (around ev.task_id) ev ≡ ok v
      → IsSound fl libs s.db s.running
      → (run : Reaches fl rpc libs around s t) → AreUndisturbed fl rpc libs around ev.task_id run
      → IsOnWay fl rpc libs around ev v s
      → IsOnWay fl rpc libs around ev v t
  Reaches-IsOnWay cfg sleep ev v honest value sound at_start calm w = w
  Reaches-IsOnWay cfg sleep ev v honest value sound (after r st) (calm, last) w =
      Step-IsOnWay ev v _ _ value (Reaches-IsSound fl rpc libs around cfg sleep honest r sound) st
        last (Reaches-IsOnWay cfg sleep ev v honest value sound r calm w)

  -- The task can be completed with the value, by statements that meet no fault.
  pub record CanArrive (k : Uuid) (v : F) (s : System F) : Type 0 where
    pub later_on : System F
    pub reached : Reaches fl rpc libs around s later_on
    pub undisturbed : AreUndisturbed fl rpc libs around k reached
    pub idle : is_running k later_on.running ≡ false
    pub row : Task F
    pub stored : find_task k later_on.db.tasks ≡ some row
    pub completed : row.status ≡ status_completed
    pub result : row.result ≡ some v

  arrived-CanArrive :
      (ev : Evaluation F) (v : F) (s t : System F) (run : Reaches fl rpc libs around s t)
      → AreUndisturbed fl rpc libs around ev.task_id run
      → is_running ev.task_id t.running ≡ false
      → IsOnWay fl rpc libs around ev v t
      → CanArrive ev.task_id v s
  arrived-CanArrive ev v s t run calm idle (arrived row alone found completed result) = record {
    later_on = t;
    reached = run;
    undisturbed = calm;
    idle = alone;
    row = row;
    stored = found;
    completed = completed;
    result = result;
  }
  arrived-CanArrive ev v s t run calm idle (under_way st before here) =
      let busy = goroutine_of-is_running ev.task_id t.running _ here in cc

  -- A task that is on its way to a value can be completed with it.
  pub IsOnWay-CanArrive :
      (cfg : CalculationTimeConfig) (sleep : Uuid → Place → Sleep) (c : Call) (ev : Evaluation F)
      (v : F) (s : System F)
      → ((k : Uuid) → IsHonest fl rpc cfg (around k) (sleep k))
      → outcome fl rpc (around ev.task_id) ev ≡ ok v
      → c.fault ≡ none
      → IsSound fl libs s.db s.running
      → IsOnWay fl rpc libs around ev v s
      → CanArrive ev.task_id v s
  unfolding begin_evaluation
  IsOnWay-CanArrive cfg sleep c ev v s honest value calm sound
        (arrived row alone found completed result) =
      arrived-CanArrive ev v s s at_start tt alone (arrived row alone found completed result)
  IsOnWay-CanArrive cfg sleep c ev v s honest value calm sound (under_way st (inr now) here) =
      let (rest, p) = goroutine_of-Picks ev.task_id s.running _ here in
      let step =
        concludes c ev rest
          (subst (λ x. Picks s.running (record { evaluation = ev; stage = x }) rest) now p) refl in
      let run = after at_start step in
      arrived-CanArrive ev v s _ run (tt, λ h. calm) ((Picks-HasDistinctTasks p sound.distinct).0)
        (Reaches-IsOnWay cfg sleep ev v honest value sound run (tt, λ h. calm)
          (under_way st (inr now) here))
  IsOnWay-CanArrive cfg sleep c ev v s honest value calm sound (under_way st (inl now) here) =
      let (rest, p) = goroutine_of-Picks ev.task_id s.running _ here in
      let (row, found) = stored_task fl rpc libs around ev st s sound here in
      let began =
        (run-written rpc c ev.task_id (to_status status_processing) s.db row calm found).0 in
      let step =
        begins c ev rest
          (subst (λ x. Picks s.running (record { evaluation = ev; stage = x }) rest) now p) began
          refl in
      let run = after (after at_start step) (concludes c ev rest (first _ rest) refl) in
      arrived-CanArrive ev v s _ run ((tt, λ h. calm), λ h. calm)
        ((Picks-HasDistinctTasks p sound.distinct).0)
        (Reaches-IsOnWay cfg sleep ev v honest value sound run ((tt, λ h. calm), λ h. calm)
          (under_way st (inl now) here))
