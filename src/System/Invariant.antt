-- ===== src/System/Invariant.antt =====
-- Every step keeps the state sound.
use ya_lyceum_go_project_fin.Prelude.{
  String, ◌≡◌, inl, inr, refl, sym, subst, false, true, List, [], ◌∷◌, ◌++◌, arith,
}
use ya_lyceum_go_project_fin.Errors.{Result, ok, err}
use ya_lyceum_go_project_fin.Grpc.{Rpc, message}
use ya_lyceum_go_project_fin.Float64.{Arith}
use ya_lyceum_go_project_fin.Worker.Calculator.{CalculationTimeConfig, Sleep}
use ya_lyceum_go_project_fin.Database.{Uuid, User, Task, Db, Call, has_user}
use ya_lyceum_go_project_fin.Database.Tables.{find_task-eq_none}
use ya_lyceum_go_project_fin.Orchestrator.Evaluator.{Place, Surroundings, evaluate}
use ya_lyceum_go_project_fin.Orchestrator.Evaluator.Meaning.{IsHonest, evaluate_sound}
use ya_lyceum_go_project_fin.Orchestrator.Repository.{status_processing}
use ya_lyceum_go_project_fin.Orchestrator.Repository.Keys.{HasOwners}
use ya_lyceum_go_project_fin.Orchestrator.Repository.Rows.{to_status, to_error, written, run}
use ya_lyceum_go_project_fin.Orchestrator.Server.{
  Libraries, Evaluation, Submitted, submit_expression, begin_evaluation, conclude_evaluation,
  abandon, outcome,
}
use ya_lyceum_go_project_fin.Orchestrator.Server.Endings.{
  check_result-ok, ending, conclude_evaluation-run,
}
use ya_lyceum_go_project_fin.Orchestrator.Server.Growth.{
  Growth, unchanged, orphaned, started, submit_expression-Growth,
}
use ya_lyceum_go_project_fin.Agent.Users.{new_user, create_user}
use ya_lyceum_go_project_fin.Agent.Users.Rows.{
  create_user-cases, create_user-HasUniqueLogins, HasUniqueLogins,
}
use ya_lyceum_go_project_fin.System.{
  Stage, queued, evaluating, abandoning, Goroutine, System, queue, Step, submits, registers, begins,
  fails, abandons, concludes, restarts, Reaches, at_start, after,
}
use ya_lyceum_go_project_fin.System.Running.{is_running}
use ya_lyceum_go_project_fin.System.Sound.{
  IsRow, is_open, is_completed, is_failed, IsSound, Picks-IsSound, rest-IsSound, is_running-missing,
}
use ya_lyceum_go_project_fin.System.Steps.{
  run-IsSound, begin_evaluation-IsLive, begin_evaluation-abandoning, with_task-IsSound,
  started-IsSound, new_goroutine-IsLive,
}

append-has_user :
    (k : Uuid) (us : List User) (u : User) → has_user k us ≡ true → has_user k (us ++ u ∷ []) ≡ true
append-has_user k (v ∷ us) u h = ground (arith, append-has_user k us u)
append-has_user k [] u h = cc

module _ {F : Type 0} where
  append-HasOwners-users :
      (us : List User) (u : User) (ts : List (Task F))
      → HasOwners us ts
      → HasOwners (us ++ u ∷ []) ts
  append-HasOwners-users us u [] h = tt
  append-HasOwners-users us u (t ∷ ts) (o, h) =
      (append-has_user t.user_id us u o, append-HasOwners-users us u ts h)

module _ {F : Type 0} (fl : Arith F) (rpc : Rpc) (libs : Libraries F) where
  pub submitted-IsSound :
      (c : Call) (db : Db F) (running : List (Goroutine F)) (s : Submitted F)
      → Growth rpc libs c db s
      → IsSound fl libs db running
      → IsSound fl libs s.db (queue s.started running)
  submitted-IsSound c db running s (unchanged quiet same) sound =
      subst (λ d. IsSound fl libs d (queue s.started running)) (sym same) (rw quiet sound)
  submitted-IsSound c db running s (orphaned u x quiet fresh owner grown) sound =
      subst (λ d. IsSound fl libs d (queue s.started running)) (sym grown)
        (rw quiet (with_task-IsSound fl rpc libs c u x db running fresh owner sound))
  submitted-IsSound c db running s (started ev begun named compiled fresh owner grown) sound =
      let absent : is_running ev.task_id running ≡ false =
        is_running-missing fl libs ev.task_id db.tasks running
          (rw named (find_task-eq_none c.fresh_id db.tasks fresh)) sound.live in
      subst (λ d. IsSound fl libs d (queue s.started running)) (sym grown)
        (rw begun (
          started-IsSound fl rpc libs c _ _ running
            (with_task-IsSound fl rpc libs c ev.user_id ev.expression db running fresh owner sound)
            (new_goroutine-IsLive fl rpc libs c ev db named fresh compiled) absent))

  create_user-IsSound :
      (c : Call) (login password_hash : String) (db : Db F) (running : List (Goroutine F))
      → IsSound fl libs db running
      → IsSound fl libs (create_user rpc c login password_hash db).0 running
  create_user-IsSound c login password_hash db running s =
      elim (create_user-cases rpc c login password_hash db) [
        | inl same ↦ subst (λ d. IsSound fl libs d running) (sym same) s
        | inr (free, grown) ↦
            subst (λ d. IsSound fl libs d running) (sym grown)
              (record {
                keyed = (
                  s.keyed.0,
                  append-HasOwners-users db.users (new_user c login password_hash) db.tasks
                      s.keyed.1,
                );
                logins =
                    subst (λ d. HasUniqueLogins d.users) grown
                      (create_user-HasUniqueLogins rpc c login password_hash db s.logins);
                rows = s.rows;
                live = s.live;
                distinct = s.distinct;
              })
      ]

  -- The write of a goroutine that goes on or not.
  begun-IsSound :
      (c : Call) (st : Stage) (ev : Evaluation F) (db : Db F) (rest : List (Goroutine F))
      → IsSound fl libs db (record { evaluation = ev; stage = st } ∷ rest)
      → IsSound fl libs (begin_evaluation rpc c ev db).0 rest
  unfolding begin_evaluation
  begun-IsSound c st ev db rest s =
      let l = s.live.0 in
      run-IsSound fl rpc libs c ev.task_id (to_status status_processing) db rest
        (rest-IsSound fl libs s) s.distinct.0
        (λ t found.
          is_open (
            inr refl,
            ground (arith, l.stored, l.unended.1),
            ground (arith, l.stored, l.unended.2),
          ))

  failed-IsSound :
      (c : Call) (m : String) (r : Goroutine F) (db : Db F) (rest : List (Goroutine F))
      → IsSound fl libs db (r ∷ rest)
      → IsSound fl libs (run rpc c r.evaluation.task_id (to_error m) db).0 rest
  failed-IsSound c m r db rest s =
      run-IsSound fl rpc libs c r.evaluation.task_id (to_error m) db rest (rest-IsSound fl libs s)
        s.distinct.0 (λ t found. is_failed (refl, refl, (m, refl)))

  module _ (around : Uuid → Surroundings F) (cfg : CalculationTimeConfig)
      (sleep : Uuid → Place → Sleep) where
    ended-IsRow :
        (c : Call) (ev : Evaluation F) (r : Result F) (t : Task F)
        → IsHonest fl rpc cfg (around ev.task_id) (sleep ev.task_id)
        → r ≡ outcome fl rpc (around ev.task_id) ev
        → t.expression ≡ ev.expression
        → libs.compile ev.expression ≡ ok ev.root
        → IsRow fl libs (written c (ending fl rpc r) t)
    unfolding outcome
    ended-IsRow c ev (err e) t honest h source compiled =
        is_failed (refl, refl, (message rpc e, refl))
    ended-IsRow c ev (ok v) t honest h source compiled =
        let (returned, finite) =
          check_result-ok fl rpc (evaluate fl rpc (around ev.task_id) [] ev.root) v (sym h) in
        is_completed (
          refl,
          refl,
          (
            v,
            refl,
            (
              ev.root,
              (rw source compiled),
              evaluate_sound fl rpc cfg (around ev.task_id) (sleep ev.task_id) honest [] ev.root v
                  returned,
              finite,
            ),
          ),
        )

    concluded-IsSound :
        (c : Call) (ev : Evaluation F) (db : Db F) (rest : List (Goroutine F))
        → IsHonest fl rpc cfg (around ev.task_id) (sleep ev.task_id)
        → IsSound fl libs db (record { evaluation = ev; stage = evaluating } ∷ rest)
        → IsSound fl libs
            (conclude_evaluation rpc c ev.task_id (outcome fl rpc (around ev.task_id) ev) db)
            rest
    concluded-IsSound c ev db rest honest s =
        let l = s.live.0 in
        rw (conclude_evaluation-run fl rpc c ev.task_id (outcome fl rpc (around ev.task_id) ev) db)
          (run-IsSound fl rpc libs c ev.task_id
            (ending fl rpc (outcome fl rpc (around ev.task_id) ev)) db rest (rest-IsSound fl libs s)
            s.distinct.0
            (λ t found.
              ended-IsRow c ev (outcome fl rpc (around ev.task_id) ev) t honest refl
                (ground (arith, l.stored, l.source)) l.compiled))

    pub Step-IsSound :
        (s t : System F)
        → ((k : Uuid) → IsHonest fl rpc cfg (around k) (sleep k))
        → Step fl rpc libs around s t
        → IsSound fl libs s.db s.running
        → IsSound fl libs t.db t.running
    unfolding abandon
    Step-IsSound s t honest (submits c req e) h = rw e (
        submitted-IsSound c s.db s.running (submit_expression rpc libs c req s.db)
          (submit_expression-Growth rpc libs c s.db req) h)
    Step-IsSound s t honest (registers c login password_hash e) h =
        rw e (create_user-IsSound c login password_hash s.db s.running h)
    Step-IsSound s t honest (begins c ev rest p began e) h =
        let here = Picks-IsSound fl libs p h in
        rw e (
          started-IsSound fl rpc libs c _ _ rest (begun-IsSound c queued ev s.db rest here)
            (begin_evaluation-IsLive fl rpc libs c queued ev s.db here.live.0 began)
            here.distinct.0)
    Step-IsSound s t honest (fails c ev rest x p failed e) h =
        let here = Picks-IsSound fl libs p h in
        rw e (
          started-IsSound fl rpc libs c _ _ rest (begun-IsSound c queued ev s.db rest here)
            (begin_evaluation-abandoning fl rpc libs c queued ev s.db x here.live.0)
            here.distinct.0)
    Step-IsSound s t honest (abandons c ev rest x p e) h = rw e (
        failed-IsSound c _ (record { evaluation = ev; stage = abandoning x }) s.db rest
          (Picks-IsSound fl libs p h))
    Step-IsSound s t honest (concludes c ev rest p e) h =
        rw e (concluded-IsSound c ev s.db rest (honest ev.task_id) (Picks-IsSound fl libs p h))
    Step-IsSound s t honest (restarts e) h =
        rw e
          (record { keyed = h.keyed; logins = h.logins; rows = h.rows; live = tt; distinct = tt })

    -- If the client is honest in every evaluation, a sound state stays sound whatever the system does:
    -- the ids of the tasks and the logins stay distinct and every task owned; each row is open with no
    -- end, completed with a finite value of its expression, or failed with a message; and each task has
    -- at most one goroutine, which evaluates the tree of its expression and finds it open, with the
    -- status that belongs to where the goroutine stands.
    pub Reaches-IsSound :
        {s t : System F}
        → ((k : Uuid) → IsHonest fl rpc cfg (around k) (sleep k))
        → Reaches fl rpc libs around s t
        → IsSound fl libs s.db s.running
        → IsSound fl libs t.db t.running
    Reaches-IsSound honest at_start h = h
    Reaches-IsSound honest (after r st) h = Step-IsSound _ _ honest st (Reaches-IsSound honest r h)
