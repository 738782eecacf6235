-- ===== src/System/Settled.antt =====
-- Which tasks change no more.
use ya_lyceum_go_project_fin.Prelude.{
  ◌≡◌, ◌⊎◌, inl, inr, refl, sym, ◌∙◌, subst, false, some, List, [], ◌∷◌, ◌==◌, arith, Bool-cases,
}
use ya_lyceum_go_project_fin.Grpc.{Rpc}
use ya_lyceum_go_project_fin.Float64.{Arith}
use ya_lyceum_go_project_fin.Database.{Uuid, Task, Db, Call, find_task}
use ya_lyceum_go_project_fin.Database.Tables.{
  has_task-eq_some, find_task-update_rows, find_task-append,
}
use ya_lyceum_go_project_fin.Orchestrator.Evaluator.{Surroundings}
use ya_lyceum_go_project_fin.Orchestrator.Repository.{status_completed, status_failed}
use ya_lyceum_go_project_fin.Orchestrator.Repository.Rows.{
  Write, to_status, to_error, new_row, written, run, run-cases, written-id,
}
use ya_lyceum_go_project_fin.Orchestrator.Server.{
  Libraries, Submitted, submit_expression, begin_evaluation, abandon, outcome,
}
use ya_lyceum_go_project_fin.Orchestrator.Server.Endings.{ending, conclude_evaluation-run}
use ya_lyceum_go_project_fin.Orchestrator.Server.Growth.{
  Growth, unchanged, orphaned, started, submit_expression-Growth,
}
use ya_lyceum_go_project_fin.Agent.Users.Rows.{create_user-cases}
use ya_lyceum_go_project_fin.System.{
  Goroutine, System, queue, Step, submits, registers, begins, fails, abandons, concludes, restarts,
  Reaches, at_start, after,
}
use ya_lyceum_go_project_fin.System.Running.{is_running, Picks-is_running, All}
use ya_lyceum_go_project_fin.System.Sound.{IsOpen, IsLive, IsSound}

module _ {F : Type 0} where
  -- No goroutine evaluates the task.
  abbrev pub IsSettled : Uuid → Task F → System F → Type 0
  IsSettled k t s = (is_running k s.running ≡ false) × (find_task k s.db.tasks ≡ some t)

  abbrev pub HasEnded : Task F → Type 0
  HasEnded t = (t.status ≡ status_completed) ⊎ (t.status ≡ status_failed)

module _ {F : Type 0} (fl : Arith F) (rpc : Rpc) (libs : Libraries F)
    (around : Uuid → Surroundings F) where
  run-find_task-other :
      (c : Call) (k j : Uuid) (w : Write F) (db : Db F)
      → (k == j) ≡ false
      → find_task j (run rpc c k w db).0.tasks ≡ find_task j db.tasks
  run-find_task-other c k j w db differs = elim (run-cases rpc c k w db) [
    | inl (same, _) ↦ rw same refl
    | inr changed ↦
        rw changed
          (ground (arith, find_task-update_rows k j (written c w) db.tasks (written-id rpc c w)))
  ]

  submitted-IsSettled :
      (c : Call) (s : System F) (x : Submitted F) (j : Uuid) (t : Task F)
      → Growth rpc libs c s.db x
      → IsSettled j t s
      → IsSettled j t (record { db = x.db; running = queue x.started s.running })
  submitted-IsSettled c s x j t (unchanged quiet same) (idle, found) =
      (rw quiet idle, rw same found)
  submitted-IsSettled c s x j t (orphaned u e quiet fresh owner grown) (idle, found) = (
    rw quiet idle,
    rw grown (
        ground (
          arith,
          find_task-append j s.db.tasks (new_row c u e ∷ []),
          has_task-eq_some j s.db.tasks t found,
        )),
  )
  submitted-IsSettled c s x j t (started ev now named compiled fresh owner grown) (idle, found) = (
    rw now (ground (arith, has_task-eq_some j s.db.tasks t found)),
    rw grown (
        ground (
          arith,
          find_task-append j s.db.tasks (new_row c ev.user_id ev.expression ∷ []),
          has_task-eq_some j s.db.tasks t found,
        )),
  )

  pub Step-IsSettled :
      (s s' : System F) (j : Uuid) (t : Task F)
      → Step fl rpc libs around s s'
      → IsSettled j t s
      → IsSettled j t s'
  unfolding abandon begin_evaluation
  Step-IsSettled s s' j t (submits c req e) h = rw e (
      submitted-IsSettled c s (submit_expression rpc libs c req s.db) j t
        (submit_expression-Growth rpc libs c s.db req) h)
  Step-IsSettled s s' j t (registers c login password_hash e) (idle, found) = rw e (
    idle,
    elim (create_user-cases rpc c login password_hash s.db) [
      | inl same ↦ rw same found
      | inr (free, grown) ↦ rw grown found
    ],
  )
  Step-IsSettled s s' j t (begins c ev rest p began e) (idle, found) =
      let still = sym (Picks-is_running j p) ∙ idle in
      rw e (
        still,
        run-find_task-other c ev.task_id j (to_status "processing") s.db (ground arith) ∙ found,
      )
  Step-IsSettled s s' j t (fails c ev rest x p stopped e) (idle, found) =
      let still = sym (Picks-is_running j p) ∙ idle in
      rw e (
        still,
        run-find_task-other c ev.task_id j (to_status "processing") s.db (ground arith) ∙ found,
      )
  Step-IsSettled s s' j t (abandons c ev rest x p e) (idle, found) =
      let still = sym (Picks-is_running j p) ∙ idle in
      rw e
        (ground arith, run-find_task-other c ev.task_id j (to_error _) s.db (ground arith) ∙ found)
  Step-IsSettled s s' j t (concludes c ev rest p e) (idle, found) =
      let still = sym (Picks-is_running j p) ∙ idle in
      rw
        (
          e,
          conclude_evaluation-run fl rpc c ev.task_id (outcome fl rpc (around ev.task_id) ev) s.db,
        )
        (
          ground arith,
          run-find_task-other c ev.task_id j (ending fl rpc (outcome fl rpc (around ev.task_id) ev))
                s.db (ground arith)
              ∙ found,
        )
  Step-IsSettled s s' j t (restarts e) (idle, found) = rw e (refl, found)

  -- The row of a task that no goroutine evaluates never changes again, whatever the system does.
  pub IsSettled-forever :
      {s s' : System F} (j : Uuid) (t : Task F)
      → Reaches fl rpc libs around s s'
      → IsSettled j t s
      → IsSettled j t s'
  IsSettled-forever j t at_start h = h
  IsSettled-forever j t (after r st) h = Step-IsSettled _ _ j t st (IsSettled-forever j t r h)

  All-IsLive-settled :
      (ts : List (Task F)) (rs : List (Goroutine F)) (k : Uuid) (t : Task F)
      → find_task k ts ≡ some t
      → HasEnded t
      → All (IsLive fl libs ts) rs
      → is_running k rs ≡ false
  All-IsLive-settled ts [] k t found ended live = refl
  All-IsLive-settled ts (r ∷ rs) k t found ended (l, live) =
      elim (Bool-cases (r.evaluation.task_id == k)) [
        | inr differs ↦ ground (arith, All-IsLive-settled ts rs k t found ended live)
        | inl same ↦
            let this : l.task ≡ t = ground (arith, l.stored) in
            absurd (ended_not_open t ended (subst IsOpen this l.unended))
      ]
    where
      ended_not_open : (t : Task F) → HasEnded t → IsOpen t → ⊥
      ended_not_open t (inl e) (inl o, _, _) = cc
      ended_not_open t (inl e) (inr o, _, _) = cc
      ended_not_open t (inr e) (inl o, _, _) = cc
      ended_not_open t (inr e) (inr o, _, _) = cc

  -- From a sound state on, the row of a task that is completed or failed never changes again.
  pub ended_forever :
      {s s' : System F} (k : Uuid) (t : Task F)
      → IsSound fl libs s.db s.running
      → Reaches fl rpc libs around s s'
      → find_task k s.db.tasks ≡ some t
      → HasEnded t
      → find_task k s'.db.tasks ≡ some t
  ended_forever {s = s} k t sound reached found ended =
      (IsSettled-forever k t reached
        (All-IsLive-settled s.db.tasks s.running k t found ended sound.live, found)).1
