-- ===== src/System/Phases.antt =====
-- The life of a task: its phases and the moves between them.
use ya_lyceum_go_project_fin.Prelude.{String, ◌≡◌, Option, none, some, str_eq, if◌then◌else◌}
use ya_lyceum_go_project_fin.Database.{Task}
use ya_lyceum_go_project_fin.Orchestrator.Repository.{
  status_pending, status_processing, status_completed, status_failed,
}

-- A task that is not submitted is absent; one with a status that is none of the four is unknown.
pub data Phase : Type 0 where
  absent pending processing completed failed unknown : Phase

-- What a statement of the system is: `beginning` is the first write of an evaluation, `conclusion` its
-- last one, and `abandonment` the one after a first write that gave an error.
pub data Action : Type 0 where
  submission registration beginning conclusion abandonment restart : Action

-- Nothing moves to `unknown` but what is there.
pub data Moves : Action → Phase → Phase → Type 0 where
  stays : (a : Action) (p : Phase) → Moves a p p
  submitted : Moves submission absent pending
  begun : Moves beginning pending processing
  succeeded : Moves conclusion processing completed
  failed_at_end : Moves conclusion processing failed
  failed_at_once : Moves abandonment pending failed
  failed_later : Moves abandonment processing failed

abbrev pub phase_of : String → Phase
phase_of s =
    if str_eq s status_pending
    then pending
    else if str_eq s status_processing
    then processing
    else if str_eq s status_completed
    then completed
    else if str_eq s status_failed
    then failed
    else unknown

module _ {F : Type 0} where
  abbrev pub phase : Option (Task F) → Phase
  phase none = absent
  phase (some t) = phase_of t.status

  -- The columns that no statement changes.
  abbrev pub Keeps : Option (Task F) → Option (Task F) → Type 0
  Keeps none o = Unit
  Keeps (some t) none = ⊥
  Keeps (some t) (some t') =
      (t'.id ≡ t.id)
      × (t'.user_id ≡ t.user_id)
      × (t'.expression ≡ t.expression)
      × (t'.created_at ≡ t.created_at)

  abbrev pub Evolves : Action → Option (Task F) → Option (Task F) → Type 0
  Evolves a o o' = Moves a (phase o) (phase o') × Keeps o o'
