-- ===== src/System/Sound.antt =====
-- What holds of the tables and of the goroutines at every moment.
use ya_lyceum_go_project_fin.Prelude.{
  String, ◌≡◌, ◌≢◌, ◌⊎◌, refl, ◌∙◌, false, ◌||◌, none, some, List, [], ◌∷◌, ◌==◌, arith,
}
use ya_lyceum_go_project_fin.Errors.{ok}
use ya_lyceum_go_project_fin.Float64.{Arith}
use ya_lyceum_go_project_fin.Database.{Uuid, Task, Db, find_task}
use ya_lyceum_go_project_fin.Orchestrator.Ast.{Node}
use ya_lyceum_go_project_fin.Orchestrator.Evaluator.Meaning.{Denotes}
use ya_lyceum_go_project_fin.Orchestrator.Repository.{
  status_pending, status_processing, status_completed, status_failed,
}
use ya_lyceum_go_project_fin.Orchestrator.Repository.Keys.{IsKeyed}
use ya_lyceum_go_project_fin.Orchestrator.Server.{Libraries, is_not_finite}
use ya_lyceum_go_project_fin.Agent.Users.Rows.{HasUniqueLogins}
use ya_lyceum_go_project_fin.System.{Stage, queued, evaluating, abandoning, Goroutine, Picks}
use ya_lyceum_go_project_fin.System.Running.{
  is_running, HasDistinctTasks, All, Picks-HasDistinctTasks, Picks-All,
}

-- The status that a goroutine finds its task in. After a failed UpdateTaskStatus it may be either.
abbrev pub IsStatusAt : Stage → String → Type 0
IsStatusAt queued s = s ≡ status_pending
IsStatusAt evaluating s = s ≡ status_processing
IsStatusAt (abandoning e) s = Unit

module _ {F : Type 0} where
  -- A task without an end.
  abbrev pub IsOpen : Task F → Type 0
  IsOpen t =
      ((t.status ≡ status_pending) ⊎ (t.status ≡ status_processing))
      × (t.result ≡ none)
      × (t.error_message ≡ none)

  abbrev pub IsFailed : Task F → Type 0
  IsFailed t =
      (t.status ≡ status_failed) × (t.result ≡ none) × ((m : String) × (t.error_message ≡ some m))

module _ {F : Type 0} (fl : Arith F) (libs : Libraries F) where
  -- A finite value of the expression, as the compiler reads it.
  abbrev pub IsValueOf : String → F → Type 0
  IsValueOf x v =
      (root : Node F) × (libs.compile x ≡ ok root)
      × Denotes fl root v
      × (is_not_finite fl v ≡ false)

  abbrev pub IsCompleted : Task F → Type 0
  IsCompleted t =
      (t.status ≡ status_completed)
      × (t.error_message ≡ none)
      × ((v : F) × (t.result ≡ some v) × IsValueOf t.expression v)

  -- A row of the table of tasks.
  pub data IsRow (t : Task F) : Type 0 where
    is_open : IsOpen t → IsRow t
    is_completed : IsCompleted t → IsRow t
    is_failed : IsFailed t → IsRow t

  -- The task of a goroutine has no end, its status is that of the stage, and the tree that is
  -- evaluated is that of its expression.
  pub record IsLive (ts : List (Task F)) (r : Goroutine F) : Type 0 where
    pub task : Task F
    pub stored : find_task r.evaluation.task_id ts ≡ some task
    pub unended : IsOpen task
    pub at_stage : IsStatusAt r.stage task.status
    pub source : task.expression ≡ r.evaluation.expression
    pub compiled : libs.compile r.evaluation.expression ≡ ok r.evaluation.root

  pub record IsSound (db : Db F) (running : List (Goroutine F)) : Type 0 where
    pub keyed : IsKeyed db
    pub logins : HasUniqueLogins db.users
    pub rows : (k : Uuid) (t : Task F) → find_task k db.tasks ≡ some t → IsRow t
    pub live : All (IsLive db.tasks) running
    pub distinct : HasDistinctTasks running

  pub Picks-IsSound :
      {db : Db F} {running rest : List (Goroutine F)} {r : Goroutine F}
      → Picks running r rest
      → IsSound db running
      → IsSound db (r ∷ rest)
  Picks-IsSound {db = db} p s = record {
    keyed = s.keyed;
    logins = s.logins;
    rows = s.rows;
    live = Picks-All (IsLive db.tasks) p s.live;
    distinct = Picks-HasDistinctTasks p s.distinct;
  }

  pub rest-IsSound :
      {db : Db F} {rest : List (Goroutine F)} {r : Goroutine F}
      → IsSound db (r ∷ rest)
      → IsSound db rest
  rest-IsSound s = record {
    keyed = s.keyed;
    logins = s.logins;
    rows = s.rows;
    live = s.live.1;
    distinct = s.distinct.1;
  }

  -- A goroutine stays as it is while its row does.
  pub IsLive-kept :
      (ts us : List (Task F)) (r : Goroutine F)
      → ((t : Task F)
          → find_task r.evaluation.task_id ts ≡ some t
          → find_task r.evaluation.task_id us ≡ some t)
      → IsLive ts r
      → IsLive us r
  IsLive-kept ts us r keeps l = record {
    task = l.task;
    stored = keeps l.task l.stored;
    unended = l.unended;
    at_stage = l.at_stage;
    source = l.source;
    compiled = l.compiled;
  }

  -- An update of one row concerns no goroutine of another.
  pub All-IsLive-other :
      (k : Uuid) (ts us : List (Task F)) (rs : List (Goroutine F))
      → ((j : Uuid) → j ≢ k → find_task j us ≡ find_task j ts)
      → is_running k rs ≡ false
      → All (IsLive ts) rs
      → All (IsLive us) rs
  All-IsLive-other k ts us [] same absent live = tt
  All-IsLive-other k ts us (r ∷ rs) same absent (l, live) = (
    IsLive-kept ts us r (λ t h. same r.evaluation.task_id (distinct_of absent) ∙ h) l,
    All-IsLive-other k ts us rs same (ground arith) live,
  )
    where
      distinct_of :
          (r.evaluation.task_id == k || is_running k rs) ≡ false → r.evaluation.task_id ≢ k
      distinct_of h = ground arith

  pub All-IsLive-kept :
      (ts us : List (Task F)) (rs : List (Goroutine F))
      → ((j : Uuid) (t : Task F) → find_task j ts ≡ some t → find_task j us ≡ some t)
      → All (IsLive ts) rs
      → All (IsLive us) rs
  All-IsLive-kept ts us [] keeps live = tt
  All-IsLive-kept ts us (r ∷ rs) keeps (l, live) =
      (IsLive-kept ts us r (keeps r.evaluation.task_id) l, All-IsLive-kept ts us rs keeps live)

  -- A task that is not stored has no goroutine.
  pub is_running-missing :
      (k : Uuid) (ts : List (Task F)) (rs : List (Goroutine F))
      → find_task k ts ≡ none
      → All (IsLive ts) rs
      → is_running k rs ≡ false
  is_running-missing k ts [] missing live = refl
  is_running-missing k ts (r ∷ rs) missing (l, live) =
      let other : (r.evaluation.task_id == k) ≡ false = ground (arith, l.stored) in
      ground (arith, is_running-missing k ts rs missing live)
