-- ===== src/System/Tasks.antt =====
-- What the users of the system can rely on: where their tasks end.
use ya_lyceum_go_project_fin.Prelude.{
  ◌≡◌, sym, ap, ◌∙◌, none, some, inl, inr, subst, none, some, [], arith,
}
use ya_lyceum_go_project_fin.Errors.{ok}
use ya_lyceum_go_project_fin.Grpc.{Rpc}
use ya_lyceum_go_project_fin.Float64.{Arith}
use ya_lyceum_go_project_fin.Worker.Calculator.{CalculationTimeConfig, Sleep}
use ya_lyceum_go_project_fin.Database.{Uuid, Task, Call, find_task}
use ya_lyceum_go_project_fin.Orchestrator.Evaluator.{Place, Surroundings}
use ya_lyceum_go_project_fin.Orchestrator.Evaluator.Meaning.{IsHonest}
use ya_lyceum_go_project_fin.Orchestrator.Repository.{status_completed}
use ya_lyceum_go_project_fin.Orchestrator.Messages.{TaskDetailsRequest, TaskDetailsResponse}
use ya_lyceum_go_project_fin.Orchestrator.Server.{Libraries, get_task_details}
use ya_lyceum_go_project_fin.Orchestrator.Server.Details.{get_task_details-IsShown}
use ya_lyceum_go_project_fin.System.{System, Reaches}
use ya_lyceum_go_project_fin.System.Sound.{
  IsRow, is_open, is_completed, is_failed, IsValueOf, IsSound,
}
use ya_lyceum_go_project_fin.System.Invariant.{Reaches-IsSound}

-- Before the first user registers.
abbrev pub empty_system : {F : Type 0} → System F
empty_system = record { db = record { users = []; tasks = [] }; running = [] }

module _ {F : Type 0} (fl : Arith F) (rpc : Rpc) (libs : Libraries F)
    (around : Uuid → Surroundings F) where
  pub empty_system-IsSound :
      IsSound fl libs (empty_system {F = F}).db (empty_system {F = F}).running
  empty_system-IsSound = record {
    keyed = (tt, tt);
    logins = tt;
    rows = λ k t h. cc;
    live = tt;
    distinct = tt;
  }

  row-value :
      (t : Task F) (v : F)
      → IsRow fl libs t
      → t.result ≡ some v
      → (t.status ≡ status_completed) × IsValueOf fl libs t.expression v
  row-value t v (is_open (_, empty, _)) h = cc
  row-value t v (is_failed (_, empty, _)) h = cc
  row-value t v (is_completed (now, _, (x, result, value))) h =
      (now, subst (IsValueOf fl libs t.expression) (ground arith) value)

  completed-value :
      (t : Task F)
      → IsRow fl libs t
      → t.status ≡ status_completed
      → (v : F) × (t.result ≡ some v) × IsValueOf fl libs t.expression v
  completed-value t (is_open (inl other, _, _)) h = cc
  completed-value t (is_open (inr other, _, _)) h = cc
  completed-value t (is_failed (other, _, _)) h = cc
  completed-value t (is_completed (now, _, (v, result, value))) h = (v, result, value)

  -- If the client is honest in every evaluation, then in every state that the system reaches from
  -- empty tables, with any faults and any ends of the process on the way, a task with the status
  -- `completed` has a result, and a result of a task is no infinity, no NaN, and a value that the
  -- task's expression denotes.
  pub completed_sound :
      (cfg : CalculationTimeConfig) (sleep : Uuid → Place → Sleep) (s : System F) (k : Uuid)
      (t : Task F)
      → ((k : Uuid) → IsHonest fl rpc cfg (around k) (sleep k))
      → Reaches fl rpc libs around empty_system s
      → find_task k s.db.tasks ≡ some t
      → (t.status ≡ status_completed
          → (v : F) × (t.result ≡ some v) × IsValueOf fl libs t.expression v)
        × ((v : F)
            → t.result ≡ some v
            → (t.status ≡ status_completed) × IsValueOf fl libs t.expression v)
  completed_sound cfg sleep s k t honest reached found =
      let row =
        (Reaches-IsSound fl rpc libs around cfg sleep honest reached empty_system-IsSound).rows k t
          found in
      (completed-value t row, λ v. row-value t v row)

  -- If the client is honest in every evaluation, then in every state that the system reaches from
  -- empty tables, with any faults and any ends of the process on the way, an answer of GetTaskDetails
  -- with the status `completed`, given where the table is read with no fault, holds a value that the
  -- expression in the answer denotes, and it is no infinity and no NaN.
  pub get_task_details_sound :
      (cfg : CalculationTimeConfig) (sleep : Uuid → Place → Sleep) (s : System F) (c : Call)
      (req : TaskDetailsRequest) (answer : TaskDetailsResponse F)
      → ((k : Uuid) → IsHonest fl rpc cfg (around k) (sleep k))
      → Reaches fl rpc libs around empty_system s
      → c.fault ≡ none
      → get_task_details fl rpc libs c req s.db ≡ ok answer
      → answer.status ≡ status_completed
      → IsValueOf fl libs answer.expression answer.result
  get_task_details_sound cfg sleep s c req answer honest reached calm answered done =
      let shown = (get_task_details-IsShown fl rpc libs c req s.db answer calm).0 answered in
      let (v, result, value) =
        (completed_sound cfg sleep s shown.task.id shown.task honest reached shown.stored).0
          (ground (arith, shown.fields)) in
      let source : answer.expression ≡ shown.task.expression =
        ap (λ a. a.expression) shown.fields in
      let answer_value : answer.result ≡ v =
        ap (λ a. a.result) shown.fields ∙ ap (λ r. elim r [ none ↦ fl.zero | some w ↦ w ]) result in
      subst (λ x. IsValueOf fl libs x answer.result) (sym source)
        (subst (λ w. IsValueOf fl libs shown.task.expression w) (sym answer_value) value)
