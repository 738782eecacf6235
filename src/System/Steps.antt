-- ===== src/System/Steps.antt =====
-- What each statement does to a sound state.
use ya_lyceum_go_project_fin.Prelude.{
  String, ◌≡◌, inl, inr, refl, sym, subst, false, true, some, [], ◌∷◌, Option-cases, Bool-cases,
  ◌≢◌, List, arith, if◌then◌else◌, ◌==◌,
}
use ya_lyceum_go_project_fin.Errors.{Error, ok}
use ya_lyceum_go_project_fin.Grpc.{Rpc}
use ya_lyceum_go_project_fin.Float64.{Arith}
use ya_lyceum_go_project_fin.Database.{
  Uuid, Task, Db, Call, find_task, has_task, has_user, update_rows,
}
use ya_lyceum_go_project_fin.Database.Tables.{
  find_task-update_rows, find_task-append, find_task-eq_none, append-HasUniqueKeys,
}
use ya_lyceum_go_project_fin.Orchestrator.Repository.{status_processing}
use ya_lyceum_go_project_fin.Orchestrator.Repository.Keys.{append-HasOwners, update-IsKeyed}
use ya_lyceum_go_project_fin.Orchestrator.Repository.Rows.{
  Write, to_status, new_row, written, run, run-cases, written-id,
}
use ya_lyceum_go_project_fin.Orchestrator.Server.{Libraries, Evaluation, begin_evaluation}
use ya_lyceum_go_project_fin.Orchestrator.Server.Growth.{with_task}
use ya_lyceum_go_project_fin.System.{Stage, queued, evaluating, abandoning, Goroutine}
use ya_lyceum_go_project_fin.System.Running.{is_running}
use ya_lyceum_go_project_fin.System.Sound.{
  IsStatusAt, IsRow, is_open, IsLive, IsSound, All-IsLive-other, All-IsLive-kept,
}

module _ {F : Type 0} (fl : Arith F) (rpc : Rpc) (libs : Libraries F) (c : Call) where
  find_task-updated :
      (k : Uuid) (w : Write F) (ts : List (Task F)) (t : Task F)
      → find_task k ts ≡ some t
      → find_task k (update_rows k (written c w) ts) ≡ some (written c w t)
  find_task-updated k w ts t found =
      ground (arith, find_task-update_rows k k (written c w) ts (written-id rpc c w))

  find_task-other :
      (k j : Uuid) (w : Write F) (ts : List (Task F))
      → j ≢ k
      → find_task j (update_rows k (written c w) ts) ≡ find_task j ts
  find_task-other k j w ts n =
      ground (arith, find_task-update_rows k j (written c w) ts (written-id rpc c w))

  IsRow-updated :
      (k j : Uuid) (w : Write F) (ts : List (Task F)) (t' : Task F)
      → ((j : Uuid) (t : Task F) → find_task j ts ≡ some t → IsRow fl libs t)
      → ((t : Task F) → find_task k ts ≡ some t → IsRow fl libs (written c w t))
      → find_task j (update_rows k (written c w) ts) ≡ some t'
      → IsRow fl libs t'
  IsRow-updated k j w ts t' rows keeps found =
      let all = find_task-update_rows k j (written c w) ts (written-id rpc c w) in
      elim (Bool-cases (k == j)) [
        | inr differs ↦ rows j t' (ground (arith, all))
        | inl same ↦ elim (Option-cases (find_task k ts)) [
          | inl missing ↦ ground (arith, all)
          | inr (t, before) ↦ subst (IsRow fl libs) (ground (arith, all)) (keeps t before)
        ]
      ]

  updated-IsSound :
      (k : Uuid) (w : Write F) (db : Db F) (rest : List (Goroutine F))
      → IsSound fl libs db rest
      → is_running k rest ≡ false
      → ((t : Task F) → find_task k db.tasks ≡ some t → IsRow fl libs (written c w t))
      → IsSound fl libs (record db { tasks = update_rows k (written c w) db.tasks }) rest
  updated-IsSound k w db rest s absent keeps = record {
    keyed = update-IsKeyed rpc c k w db s.keyed;
    logins = s.logins;
    rows = λ j t'. IsRow-updated k j w db.tasks t' s.rows keeps;
    live =
        All-IsLive-other fl libs k db.tasks (update_rows k (written c w) db.tasks) rest
          (λ j. find_task-other k j w db.tasks) absent s.live;
    distinct = s.distinct;
  }

  -- An update of a task that no goroutine evaluates.
  pub run-IsSound :
      (k : Uuid) (w : Write F) (db : Db F) (rest : List (Goroutine F))
      → IsSound fl libs db rest
      → is_running k rest ≡ false
      → ((t : Task F) → find_task k db.tasks ≡ some t → IsRow fl libs (written c w t))
      → IsSound fl libs (run rpc c k w db).0 rest
  run-IsSound k w db rest s absent keeps = elim (run-cases rpc c k w db) [
    | inl (same, _) ↦ subst (λ d. IsSound fl libs d rest) (sym same) s
    | inr after ↦
        subst (λ d. IsSound fl libs d rest) (sym after) (updated-IsSound k w db rest s absent keeps)
  ]

  processing-IsLive :
      (st st' : Stage) (ev : Evaluation F) (ts : List (Task F))
      → IsStatusAt st' status_processing
      → IsLive fl libs ts (record { evaluation = ev; stage = st })
      → IsLive fl libs
          (update_rows ev.task_id (written c (to_status status_processing)) ts)
          (record { evaluation = ev; stage = st' })
  processing-IsLive st st' ev ts now l = record {
    task = written c (to_status status_processing) l.task;
    stored = find_task-updated ev.task_id (to_status status_processing) ts l.task l.stored;
    unended = (inr refl, l.unended.1, l.unended.2);
    at_stage = now;
    source = l.source;
    compiled = l.compiled;
  }

  pub begin_evaluation-IsLive :
      (st : Stage) (ev : Evaluation F) (db : Db F)
      → IsLive fl libs db.tasks (record { evaluation = ev; stage = st })
      → (begin_evaluation rpc c ev db).1 ≡ ok tt
      → IsLive fl libs
          (begin_evaluation rpc c ev db).0.tasks
          (record { evaluation = ev; stage = evaluating })
  unfolding begin_evaluation
  begin_evaluation-IsLive st ev db l began =
      elim (run-cases rpc c ev.task_id (to_status status_processing) db) [
        | inl (_, (e, failed)) ↦ cc
        | inr after ↦ rw after (processing-IsLive st evaluating ev db.tasks refl l)
      ]

  pub begin_evaluation-abandoning :
      (st : Stage) (ev : Evaluation F) (db : Db F) (e : Error)
      → IsLive fl libs db.tasks (record { evaluation = ev; stage = st })
      → IsLive fl libs
          (begin_evaluation rpc c ev db).0.tasks
          (record { evaluation = ev; stage = abandoning e })
  unfolding begin_evaluation
  begin_evaluation-abandoning st ev db e l =
      elim (run-cases rpc c ev.task_id (to_status status_processing) db) [
        | inl (same, _) ↦ rw same (record {
          task = l.task;
          stored = l.stored;
          unended = l.unended;
          at_stage = tt;
          source = l.source;
          compiled = l.compiled;
        })
        | inr after ↦ rw after (processing-IsLive st (abandoning e) ev db.tasks tt l)
      ]

  find_task-grown :
      (u : Uuid) (x : String) (db : Db F) (j : Uuid)
      → has_task c.fresh_id db.tasks ≡ false
      → find_task j (with_task rpc libs c db u x).tasks
        ≡ (if c.fresh_id == j then some (new_row c u x) else find_task j db.tasks)
  find_task-grown u x db j fresh =
      ground (arith, find_task-append j db.tasks (new_row c u x ∷ []), find_task-eq_none j db.tasks)

  -- The insertion of a task.
  pub with_task-IsSound :
      (u : Uuid) (x : String) (db : Db F) (running : List (Goroutine F))
      → has_task c.fresh_id db.tasks ≡ false
      → has_user u db.users ≡ true
      → IsSound fl libs db running
      → IsSound fl libs (with_task rpc libs c db u x) running
  with_task-IsSound u x db running fresh owner s = record {
    keyed = (
      append-HasUniqueKeys db.tasks (new_row c u x) s.keyed.0 fresh,
      append-HasOwners db.users db.tasks (new_row c u x) s.keyed.1 owner,
    );
    logins = s.logins;
    rows = λ j t h. elim (Bool-cases (c.fresh_id == j)) [
      | inl same ↦
          let row : new_row c u x ≡ t = ground (arith, find_task-grown u x db j fresh) in
          subst (IsRow fl libs) row (is_open (inl refl, refl, refl))
      | inr differs ↦ s.rows j t (ground (arith, find_task-grown u x db j fresh))
    ];
    live =
        All-IsLive-kept fl libs db.tasks (with_task rpc libs c db u x).tasks running
          (λ j t h. ground (arith, find_task-grown u x db j fresh, find_task-eq_none j db.tasks))
          s.live;
    distinct = s.distinct;
  }

  -- A goroutine whose task no other evaluates.
  pub started-IsSound :
      (db : Db F) (r : Goroutine F) (rest : List (Goroutine F))
      → IsSound fl libs db rest
      → IsLive fl libs db.tasks r
      → is_running r.evaluation.task_id rest ≡ false
      → IsSound fl libs db (r ∷ rest)
  started-IsSound db r rest s l absent = record {
    keyed = s.keyed;
    logins = s.logins;
    rows = s.rows;
    live = (l, s.live);
    distinct = (absent, s.distinct);
  }

  pub new_goroutine-IsLive :
      (ev : Evaluation F) (db : Db F)
      → ev.task_id ≡ c.fresh_id
      → has_task c.fresh_id db.tasks ≡ false
      → libs.compile ev.expression ≡ ok ev.root
      → IsLive fl libs
          (with_task rpc libs c db ev.user_id ev.expression).tasks
          (record { evaluation = ev; stage = queued })
  new_goroutine-IsLive ev db named fresh compiled = record {
    task = new_row c ev.user_id ev.expression;
    stored = ground (arith, find_task-grown ev.user_id ev.expression db ev.task_id fresh);
    unended = (inl refl, refl, refl);
    at_stage = refl;
    source = refl;
    compiled = compiled;
  }
