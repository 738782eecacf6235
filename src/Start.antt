-- ===== src/Start.antt =====
-- The start of the three processes, `Run` of internal/agent/app/app.go, internal/orchestrator/app/app.go
-- and internal/worker/app/app.go: the constructors that are given to fx.Provide and the function that is
-- given to fx.Invoke, with the types that they take and give, the hooks they append, and the errors.
pub mod Order
pub mod Assembly
pub mod Run
mod Tests
use mathlib.Core.List.{Memᴰ}
use ya_lyceum_go_project_fin.Prelude.{
  ℕ, suc, String, ◌≡◌, Bool, true, false, ◌&&◌, ◌||◌, List, [], ◌∷◌, str_eq, if◌then◌else◌,
}

-- A constructor, by the type of what it gives: whether it can return an error, and whether it appends a
-- hook with an OnStop.
pub record Provider : Type 0 where
  pub gives : String
  pub takes : List String
  pub can_fail : Bool
  pub has_hook : Bool

abbrev pub plain : String → List String → Provider
plain gives takes = record { gives = gives; takes = takes; can_fail = false; has_hook = false }

abbrev pub fallible : String → List String → Provider
fallible gives takes = record { gives = gives; takes = takes; can_fail = true; has_hook = false }

abbrev pub hooked : String → List String → Provider
hooked gives takes = record { gives = gives; takes = takes; can_fail = true; has_hook = true }

-- `NewOrchestratorServiceClient` and `NewWorkerServiceClient`: grpc.NewClient may fail, and the hook closes
-- the connection.
abbrev pub orchestrator_client : Provider
orchestrator_client =
    hooked "pb.OrchestratorServiceClient"
      ("fx.Lifecycle" ∷ "*zap.Logger" ∷ "client.OrchestratorClientConfigProvider" ∷ [])

abbrev pub worker_client : Provider
worker_client =
    hooked "pb.WorkerServiceClient"
      ("fx.Lifecycle" ∷ "*zap.Logger" ∷ "client.WorkerClientConfigProvider" ∷ [])

-- The constructor of the pool, of the Agent and of the Orchestrator: postgres.NewPool may fail, and the hook
-- closes the pool.
abbrev pub connection_pool : Provider
connection_pool = hooked "*pgxpool.Pool" ("fx.Lifecycle" ∷ "*config.Config" ∷ "*zap.Logger" ∷ [])

-- A process: its constructors, and what its invoked function takes. That one appends the hook of the
-- server.
pub record Wiring : Type 0 where
  pub providers : List Provider
  pub invoked : List String

pub data Process : Type 0 where
  agent orchestrator worker : Process

abbrev agent_wiring : Wiring
agent_wiring = record {
  providers =
      fallible "*config.Config" []
      ∷ plain "client.OrchestratorClientConfigProvider" ("*config.Config" ∷ [])
      ∷ plain "*zap.Logger" []
      ∷ plain "hasher.PasswordHasher" []
      ∷ connection_pool
      ∷ fallible "*jwtauth.Manager" ("*config.Config" ∷ "*zap.Logger" ∷ [])
      ∷ plain "echo.MiddlewareFunc" ("*jwtauth.Manager" ∷ "*zap.Logger" ∷ [])
      ∷ orchestrator_client
      ∷ plain "repository.UserRepository" ("*pgxpool.Pool" ∷ "*zap.Logger" ∷ [])
      ∷ plain "service.AuthService" (
          "repository.UserRepository" ∷ "hasher.PasswordHasher" ∷ "*zap.Logger" ∷ "*jwtauth.Manager"
          ∷ [])
      ∷ plain "service.TaskService"
          ("*zap.Logger" ∷ "pb.OrchestratorServiceClient" ∷ "*config.Config" ∷ [])
      ∷ plain "*handler.AuthHandler" ("service.AuthService" ∷ "*zap.Logger" ∷ [])
      ∷ plain "*handler.TaskHandler" ("*zap.Logger" ∷ "service.TaskService" ∷ [])
      ∷ plain "*echo.Echo" ("*zap.Logger" ∷ "*config.Config" ∷ [])
      ∷ [];
  invoked =
      "fx.Lifecycle" ∷ "*echo.Echo" ∷ "*config.Config" ∷ "*zap.Logger" ∷ "*pgxpool.Pool"
      ∷ "*handler.AuthHandler" ∷ "*handler.TaskHandler" ∷ "echo.MiddlewareFunc" ∷ [];
}

abbrev orchestrator_wiring : Wiring
orchestrator_wiring = record {
  providers =
      fallible "*config.Config" []
      ∷ plain "client.WorkerClientConfigProvider" ("*config.Config" ∷ [])
      ∷ plain "*zap.Logger" []
      ∷ connection_pool
      ∷ plain "repository.TaskRepository" ("*pgxpool.Pool" ∷ "*zap.Logger" ∷ [])
      ∷ worker_client
      ∷ plain "service.Evaluator" ("*zap.Logger" ∷ "pb.WorkerServiceClient" ∷ [])
      ∷ plain "*grpc_handler.OrchestratorServer"
          ("*zap.Logger" ∷ "repository.TaskRepository" ∷ "service.Evaluator" ∷ [])
      ∷ plain "*grpc.Server" ("*zap.Logger" ∷ [])
      ∷ [];
  invoked =
      "fx.Lifecycle" ∷ "*grpc.Server" ∷ "*grpc_handler.OrchestratorServer" ∷ "*config.Config"
      ∷ "*zap.Logger" ∷ "*pgxpool.Pool" ∷ [];
}

abbrev worker_wiring : Wiring
worker_wiring = record {
  providers =
      fallible "*config.Config" []
      ∷ plain "*zap.Logger" []
      ∷ plain "service.Calculator" ("*zap.Logger" ∷ "*config.Config" ∷ [])
      ∷ plain "*grpc_handler.WorkerServer" ("*zap.Logger" ∷ "service.Calculator" ∷ [])
      ∷ plain "*grpc.Server" ("*zap.Logger" ∷ [])
      ∷ [];
  invoked =
      "fx.Lifecycle" ∷ "*grpc.Server" ∷ "*grpc_handler.WorkerServer" ∷ "*config.Config"
      ∷ "*zap.Logger" ∷ [];
}

abbrev pub wiring : Process → Wiring
wiring agent = agent_wiring
wiring orchestrator = orchestrator_wiring
wiring worker = worker_wiring

-- What is there at a moment of the start: the types of the values, the hooks with the last one first, and
-- whether a constructor has failed and whether the invoked function has run.
pub record StartState : Type 0 where
  pub values : List String
  pub hooks : List String
  pub failed : Bool
  pub has_invoked : Bool

abbrev pub before_start : StartState
before_start = record {
  values = "fx.Lifecycle" ∷ [];
  hooks = [];
  failed = false;
  has_invoked = false;
}

abbrev pub has : String → List String → Bool
has x [] = false
has x (y ∷ ys) = str_eq x y || has x ys

abbrev pub has_all : List String → List String → Bool
has_all [] ys = true
has_all (x ∷ xs) ys = has x ys && has_all xs ys

-- `fx` calls a constructor at most once, and after those whose values it takes; the first error ends the
-- start.
module _ (w : Wiring) where
  abbrev pub IsRunning : StartState → Type 0
  IsRunning s = (s.failed ≡ false) × (s.has_invoked ≡ false)

  abbrev pub IsCalled : Provider → StartState → Type 0
  IsCalled p s =
      Memᴰ p w.providers × (has_all p.takes s.values ≡ true) × (has p.gives s.values ≡ false)

  pub data StartStep (s t : StartState) : Type 0 where
    constructs :
        (p : Provider)
        → IsRunning s
        → IsCalled p s
        → t ≡ record s {
          values = p.gives ∷ s.values;
          hooks = if p.has_hook then p.gives ∷ s.hooks else s.hooks;
        }
        → StartStep s t
    fails :
        (p : Provider)
        → IsRunning s
        → IsCalled p s
        → p.can_fail ≡ true
        → t ≡ record s { failed = true }
        → StartStep s t
    invokes :
        IsRunning s
        → has_all w.invoked s.values ≡ true
        → t ≡ record s { hooks = "server" ∷ s.hooks; has_invoked = true }
        → StartStep s t

  pub data StartRun (s : StartState) : ℕ → StartState → Type 0 where
    no_step : StartRun s 0 s
    then_step : {n : ℕ} {t u : StartState} → StartRun s n t → StartStep t u → StartRun s (suc n) u
