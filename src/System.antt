-- ===== src/System.antt =====
-- The Orchestrator with its goroutines: SubmitExpression and startEvaluation of
-- internal/orchestrator/grpc_handler/orchestrator_server.go, interleaved with one another, with the
-- registrations of internal/agent/repository/user_postgres.go, and with the end of the process.
-- A step is one statement to the database with the code up to the next one.
pub mod Running
pub mod Sound
pub mod Steps
pub mod Invariant
pub mod Phases
pub mod Lifecycle
pub mod Tasks
pub mod Answers
pub mod Sample
pub mod Settled
pub mod Undisturbed
pub mod Kept
pub mod Arrival
pub mod Completion
pub mod Endings
mod Tests
use ya_lyceum_go_project_fin.Prelude.{String, ◌≡◌, Option, none, some, List, [], ◌∷◌}
use ya_lyceum_go_project_fin.Errors.{Error, Result, ok, err}
use ya_lyceum_go_project_fin.Grpc.{Rpc}
use ya_lyceum_go_project_fin.Float64.{Arith}
use ya_lyceum_go_project_fin.Database.{Uuid, Db, Call}
use ya_lyceum_go_project_fin.Orchestrator.Evaluator.{Surroundings}
use ya_lyceum_go_project_fin.Orchestrator.Messages.{ExpressionRequest}
use ya_lyceum_go_project_fin.Orchestrator.Server.{
  Libraries, Evaluation, submit_expression, begin_evaluation, conclude_evaluation, abandon, outcome,
}
use ya_lyceum_go_project_fin.Agent.Users.{create_user}

-- Where a goroutine of `startEvaluation` stands: before UpdateTaskStatus; after it has failed and
-- before SetTaskError; after it has succeeded and before the last write.
pub data Stage : Type 0 where
  queued evaluating : Stage
  abandoning : Error → Stage

pub record Goroutine (F : Type 0) : Type 0 where
  pub evaluation : Evaluation F
  pub stage : Stage

-- The database, and the goroutines that have not ended.
pub record System (F : Type 0) : Type 0 where
  pub db : Db F
  pub running : List (Goroutine F)

-- One of the goroutines, and the others.
pub data Picks {F : Type 0} : List (Goroutine F) → Goroutine F → List (Goroutine F) → Type 0 where
  first : (r : Goroutine F) (rs : List (Goroutine F)) → Picks (r ∷ rs) r rs
  later :
      {rs rest : List (Goroutine F)} {r : Goroutine F} (q : Goroutine F)
      → Picks rs r rest
      → Picks (q ∷ rs) r (q ∷ rest)

abbrev pub queue : {F : Type 0} → Option (Evaluation F) → List (Goroutine F) → List (Goroutine F)
queue none rs = rs
queue (some ev) rs = record { evaluation = ev; stage = queued } ∷ rs

-- The surroundings in which each task is evaluated are given by its id.
module _ {F : Type 0} (fl : Arith F) (rpc : Rpc) (libs : Libraries F)
    (around : Uuid → Surroundings F) where
  pub data Step (s t : System F) : Type 0 where
    submits :
        (c : Call) (req : ExpressionRequest)
        → t ≡ record {
          db = (submit_expression rpc libs c req s.db).db;
          running = queue (submit_expression rpc libs c req s.db).started s.running;
        }
        → Step s t
    registers :
        (c : Call) (login password_hash : String)
        → t ≡ record s { db = (create_user rpc c login password_hash s.db).0 }
        → Step s t
    begins :
        (c : Call) (ev : Evaluation F) (rest : List (Goroutine F))
        → Picks s.running (record { evaluation = ev; stage = queued }) rest
        → (begin_evaluation rpc c ev s.db).1 ≡ ok tt
        → t ≡ record {
          db = (begin_evaluation rpc c ev s.db).0;
          running = record { evaluation = ev; stage = evaluating } ∷ rest;
        }
        → Step s t
    fails :
        (c : Call) (ev : Evaluation F) (rest : List (Goroutine F)) (e : Error)
        → Picks s.running (record { evaluation = ev; stage = queued }) rest
        → (begin_evaluation rpc c ev s.db).1 ≡ err e
        → t ≡ record {
          db = (begin_evaluation rpc c ev s.db).0;
          running = record { evaluation = ev; stage = abandoning e } ∷ rest;
        }
        → Step s t
    abandons :
        (c : Call) (ev : Evaluation F) (rest : List (Goroutine F)) (e : Error)
        → Picks s.running (record { evaluation = ev; stage = abandoning e }) rest
        → t ≡ record { db = abandon rpc c ev e s.db; running = rest }
        → Step s t
    concludes :
        (c : Call) (ev : Evaluation F) (rest : List (Goroutine F))
        → Picks s.running (record { evaluation = ev; stage = evaluating }) rest
        → t ≡ record {
          db = conclude_evaluation rpc c ev.task_id (outcome fl rpc (around ev.task_id) ev) s.db;
          running = rest;
        }
        → Step s t
    -- The process ends, and is started again with no goroutine.
    restarts : t ≡ record s { running = [] } → Step s t

  pub data Reaches (s : System F) : System F → Type 0 where
    at_start : Reaches s s
    after : {t u : System F} → Reaches s t → Step t u → Reaches s u
