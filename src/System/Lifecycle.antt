-- ===== src/System/Lifecycle.antt =====
-- The life of a task, which the statements of the system implement.
use ya_lyceum_go_project_fin.Prelude.{
  String, ◌≡◌, inl, inr, refl, sym, subst, false, Option, none, some, List, [], ◌∷◌, ◌==◌, arith,
  Bool-cases,
}
use ya_lyceum_go_project_fin.Errors.{Result, ok, err}
use ya_lyceum_go_project_fin.Grpc.{Rpc, message}
use ya_lyceum_go_project_fin.Float64.{Arith}
use ya_lyceum_go_project_fin.Database.{Uuid, Task, Db, Call, find_task, has_task, update_rows}
use ya_lyceum_go_project_fin.Database.Tables.{
  find_task-update_rows, find_task-append, find_task-eq_none,
}
use ya_lyceum_go_project_fin.Orchestrator.Evaluator.{Surroundings}
use ya_lyceum_go_project_fin.Orchestrator.Repository.{status_processing}
use ya_lyceum_go_project_fin.Orchestrator.Repository.Rows.{
  Write, to_status, to_result, to_error, new_row, written, run, run-cases, written-id,
}
use ya_lyceum_go_project_fin.Orchestrator.Server.{
  Libraries, Evaluation, Submitted, submit_expression, begin_evaluation, abandon, outcome,
}
use ya_lyceum_go_project_fin.Orchestrator.Server.Endings.{ending, conclude_evaluation-run}
use ya_lyceum_go_project_fin.Orchestrator.Server.Growth.{
  Growth, unchanged, orphaned, started, with_task, submit_expression-Growth,
}
use ya_lyceum_go_project_fin.Agent.Users.Rows.{create_user-cases}
use ya_lyceum_go_project_fin.System.{
  Stage, queued, evaluating, abandoning, System, Step, submits, registers, begins, fails, abandons,
  concludes, restarts,
}
use ya_lyceum_go_project_fin.System.Sound.{IsLive, IsSound, Picks-IsSound}
use ya_lyceum_go_project_fin.System.Phases.{
  absent, processing, completed, failed, Action, submission, registration, beginning, conclusion,
  abandonment, restart, Moves, stays, submitted, begun, succeeded, failed_at_end, failed_at_once,
  failed_later, phase_of, phase, Keeps, Evolves,
}

module _ {F : Type 0} where
  Evolves-refl : (a : Action) (o : Option (Task F)) → Evolves a o o
  Evolves-refl a none = (stays a absent, tt)
  Evolves-refl a (some t) = (stays a (phase_of t.status), (refl, refl, refl, refl))

  Evolves-same : (a : Action) (o o' : Option (Task F)) → o' ≡ o → Evolves a o o'
  Evolves-same a o o' same = subst (Evolves a o) (sym same) (Evolves-refl a o)

  written-Keeps : (c : Call) (w : Write F) (t : Task F) → Keeps (some t) (some (written c w t))
  written-Keeps c (to_status s) t = (refl, refl, refl, refl)
  written-Keeps c (to_result v) t = (refl, refl, refl, refl)
  written-Keeps c (to_error m) t = (refl, refl, refl, refl)

module _ {F : Type 0} (fl : Arith F) (rpc : Rpc) (libs : Libraries F) where
  updated-Evolves :
      (a : Action) (c : Call) (k j : Uuid) (w : Write F) (ts : List (Task F)) (t : Task F)
      → find_task k ts ≡ some t
      → Moves a (phase (some t)) (phase (some (written c w t)))
      → Evolves a (find_task j ts) (find_task j (update_rows k (written c w) ts))
  updated-Evolves a c k j w ts t found moves =
      let all = find_task-update_rows k j (written c w) ts (written-id rpc c w) in
      elim (Bool-cases (k == j)) [
        | inr differs ↦ Evolves-same a _ _ (ground (arith, all))
        | inl same ↦
            let old : find_task j ts ≡ some t = ground arith in
            let new : find_task j (update_rows k (written c w) ts) ≡ some (written c w t) =
              ground (arith, all) in
            rw (old, new) (moves, written-Keeps c w t)
      ]

  run-Evolves :
      (a : Action) (c : Call) (k j : Uuid) (w : Write F) (db : Db F) (t : Task F)
      → find_task k db.tasks ≡ some t
      → Moves a (phase (some t)) (phase (some (written c w t)))
      → Evolves a (find_task j db.tasks) (find_task j (run rpc c k w db).0.tasks)
  run-Evolves a c k j w db t found moves = elim (run-cases rpc c k w db) [
    | inl (same, _) ↦ rw same (Evolves-refl a (find_task j db.tasks))
    | inr after ↦ rw after (updated-Evolves a c k j w db.tasks t found moves)
  ]

  with_task-Evolves :
      (c : Call) (u : Uuid) (x : String) (db : Db F) (j : Uuid)
      → has_task c.fresh_id db.tasks ≡ false
      → Evolves submission (find_task j db.tasks) (find_task j (with_task rpc libs c db u x).tasks)
  with_task-Evolves c u x db j fresh = elim (Bool-cases (has_task j db.tasks)) [
    | inl here ↦
        Evolves-same submission _ _
          (ground (arith, find_task-append j db.tasks (new_row c u x ∷ [])))
    | inr missing ↦ elim (Bool-cases (c.fresh_id == j)) [
      | inr differs ↦ Evolves-same submission _ _ (
          ground (
            arith,
            find_task-append j db.tasks (new_row c u x ∷ []),
            find_task-eq_none j db.tasks missing,
          ))
      | inl same ↦
          let new : find_task j (with_task rpc libs c db u x).tasks ≡ some (new_row c u x) =
            ground (arith, find_task-append j db.tasks (new_row c u x ∷ [])) in
          rw (find_task-eq_none j db.tasks missing, new) (submitted, tt)
    ]
  ]

  submitted-Evolves :
      (c : Call) (db : Db F) (s : Submitted F) (j : Uuid)
      → Growth rpc libs c db s
      → Evolves submission (find_task j db.tasks) (find_task j s.db.tasks)
  submitted-Evolves c db s j (unchanged quiet same) =
      rw same (Evolves-refl submission (find_task j db.tasks))
  submitted-Evolves c db s j (orphaned u x quiet fresh owner grown) =
      rw grown (with_task-Evolves c u x db j fresh)
  submitted-Evolves c db s j (started ev now named compiled fresh owner grown) =
      rw grown (with_task-Evolves c ev.user_id ev.expression db j fresh)

  begun-Evolves :
      (c : Call) (ev : Evaluation F) (db : Db F) (j : Uuid)
      → IsLive fl libs db.tasks (record { evaluation = ev; stage = queued })
      → Evolves beginning
          (find_task j db.tasks)
          (find_task j (begin_evaluation rpc c ev db).0.tasks)
  unfolding begin_evaluation
  begun-Evolves c ev db j l =
      run-Evolves beginning c ev.task_id j (to_status status_processing) db l.task l.stored
        (subst (λ s. Moves beginning (phase_of s) processing) (sym l.at_stage) begun)

  failed-Evolves :
      (a : Action) (c : Call) (ev : Evaluation F) (st : Stage) (m : String) (db : Db F) (j : Uuid)
      → (l : IsLive fl libs db.tasks (record { evaluation = ev; stage = st }))
      → Moves a (phase_of l.task.status) failed
      → Evolves a
          (find_task j db.tasks)
          (find_task j (run rpc c ev.task_id (to_error m) db).0.tasks)
  failed-Evolves a c ev st m db j l moves =
      run-Evolves a c ev.task_id j (to_error m) db l.task l.stored moves

  abandoned-Evolves :
      (c : Call) (ev : Evaluation F) (st : Stage) (m : String) (db : Db F) (j : Uuid)
      → IsLive fl libs db.tasks (record { evaluation = ev; stage = st })
      → Evolves abandonment
          (find_task j db.tasks)
          (find_task j (run rpc c ev.task_id (to_error m) db).0.tasks)
  abandoned-Evolves c ev st m db j l =
      failed-Evolves abandonment c ev st m db j l (elim l.unended.0 [
        | inl at_pending ↦
            subst (λ s. Moves abandonment (phase_of s) failed) (sym at_pending) failed_at_once
        | inr at_processing ↦
            subst (λ s. Moves abandonment (phase_of s) failed) (sym at_processing) failed_later
      ])

  concluded-Evolves :
      (c : Call) (ev : Evaluation F) (r : Result F) (db : Db F) (j : Uuid)
      → IsLive fl libs db.tasks (record { evaluation = ev; stage = evaluating })
      → Evolves conclusion
          (find_task j db.tasks)
          (find_task j (run rpc c ev.task_id (ending fl rpc r) db).0.tasks)
  concluded-Evolves c ev (err e) db j l =
      failed-Evolves conclusion c ev evaluating (message rpc e) db j l
        (subst (λ s. Moves conclusion (phase_of s) failed) (sym l.at_stage) failed_at_end)
  concluded-Evolves c ev (ok v) db j l =
      run-Evolves conclusion c ev.task_id j (to_result v) db l.task l.stored
        (subst (λ s. Moves conclusion (phase_of s) completed) (sym l.at_stage) succeeded)

  abbrev pub action_of :
      (around : Uuid → Surroundings F) (s t : System F) → Step fl rpc libs around s t → Action
  action_of around s t (submits c req e) = submission
  action_of around s t (registers c login password_hash e) = registration
  action_of around s t (begins c ev rest p began e) = beginning
  action_of around s t (fails c ev rest x p stopped e) = beginning
  action_of around s t (abandons c ev rest x p e) = abandonment
  action_of around s t (concludes c ev rest p e) = conclusion
  action_of around s t (restarts e) = restart

  -- In a sound state every statement of the system leaves each task in its phase or takes it one step
  -- along its life: a submission from absent to pending, the first write of an evaluation from pending
  -- to processing, its last write from processing to completed or failed, and the write after a first
  -- one that gave an error from pending or processing to failed. Registrations and restarts leave every
  -- task in its phase. A task that is stored stays stored and keeps its id, user, expression and time
  -- of creation.
  pub Step-Evolves :
      (around : Uuid → Surroundings F) (s t : System F) (j : Uuid)
      → IsSound fl libs s.db s.running
      → (st : Step fl rpc libs around s t)
      → Evolves (action_of around s t st) (find_task j s.db.tasks) (find_task j t.db.tasks)
  unfolding abandon
  Step-Evolves around s t j h (submits c req e) = rw e (
      submitted-Evolves c s.db (submit_expression rpc libs c req s.db) j
        (submit_expression-Growth rpc libs c s.db req))
  Step-Evolves around s t j h (registers c login password_hash e) =
      rw e (elim (create_user-cases rpc c login password_hash s.db) [
        | inl same ↦ rw same (Evolves-refl registration (find_task j s.db.tasks))
        | inr (free, grown) ↦ rw grown (Evolves-refl registration (find_task j s.db.tasks))
      ])
  Step-Evolves around s t j h (begins c ev rest p began e) =
      rw e (begun-Evolves c ev s.db j (Picks-IsSound fl libs p h).live.0)
  Step-Evolves around s t j h (fails c ev rest x p stopped e) =
      rw e (begun-Evolves c ev s.db j (Picks-IsSound fl libs p h).live.0)
  Step-Evolves around s t j h (abandons c ev rest x p e) =
      rw e (abandoned-Evolves c ev (abandoning x) _ s.db j (Picks-IsSound fl libs p h).live.0)
  Step-Evolves around s t j h (concludes c ev rest p e) =
      rw
        (
          e,
          conclude_evaluation-run fl rpc c ev.task_id (outcome fl rpc (around ev.task_id) ev) s.db,
        )
        (concluded-Evolves c ev (outcome fl rpc (around ev.task_id) ev) s.db j
          (Picks-IsSound fl libs p h).live.0)
  Step-Evolves around s t j h (restarts e) = rw e (Evolves-refl restart (find_task j s.db.tasks))
