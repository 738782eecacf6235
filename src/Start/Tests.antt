-- ===== src/Start/Tests.antt =====
-- The start of the Orchestrator where nothing fails, and the theorems at it.
use mathlib.Core.List.{Memᴰ}
use ya_lyceum_go_project_fin.Prelude.{◌≡◌, ◌≤◌, ◌⊎◌, refl, true, false, [], ◌∷◌}
use ya_lyceum_go_project_fin.Start.{
  plain, fallible, connection_pool, worker_client, orchestrator, wiring, StartState, before_start,
  StartStep, constructs, invokes, StartRun, no_step, then_step,
}
use ya_lyceum_go_project_fin.Start.Assembly.{start_terminates}

abbrev assembled : StartState
assembled = record {
  values =
      "*grpc.Server" ∷ "*grpc_handler.OrchestratorServer" ∷ "service.Evaluator"
      ∷ "pb.WorkerServiceClient" ∷ "repository.TaskRepository" ∷ "*pgxpool.Pool" ∷ "*zap.Logger"
      ∷ "client.WorkerClientConfigProvider" ∷ "*config.Config" ∷ "fx.Lifecycle" ∷ [];
  hooks = "pb.WorkerServiceClient" ∷ "*pgxpool.Pool" ∷ [];
  failed = false;
  has_invoked = false;
}

abbrev connected : StartState
connected = record {
  values =
      "repository.TaskRepository" ∷ "*pgxpool.Pool" ∷ "*zap.Logger"
      ∷ "client.WorkerClientConfigProvider" ∷ "*config.Config" ∷ "fx.Lifecycle" ∷ [];
  hooks = "*pgxpool.Pool" ∷ [];
  failed = false;
  has_invoked = false;
}

connected-run : StartRun (wiring orchestrator) before_start 5 connected
connected-run =
    then_step
      (then_step
        (then_step
          (then_step
            (then_step (no_step) (
              constructs (fallible "*config.Config" []) (refl, refl) (Memᴰ.head refl, refl, refl)
                refl))
            (constructs (plain "client.WorkerClientConfigProvider" ("*config.Config" ∷ []))
              (refl, refl) (Memᴰ.tail (Memᴰ.head refl), refl, refl) refl))
          (constructs (plain "*zap.Logger" []) (refl, refl)
            (Memᴰ.tail (Memᴰ.tail (Memᴰ.head refl)), refl, refl) refl))
        (constructs (connection_pool) (refl, refl)
          (Memᴰ.tail (Memᴰ.tail (Memᴰ.tail (Memᴰ.head refl))), refl, refl) refl))
      (constructs (plain "repository.TaskRepository" ("*pgxpool.Pool" ∷ "*zap.Logger" ∷ []))
        (refl, refl) (Memᴰ.tail (Memᴰ.tail (Memᴰ.tail (Memᴰ.tail (Memᴰ.head refl)))), refl, refl)
        refl)

assembled-run : StartRun (wiring orchestrator) before_start 9 assembled
assembled-run =
    then_step
      (then_step
        (then_step
          (then_step (connected-run) (
            constructs (worker_client) (refl, refl)
              (
                Memᴰ.tail (Memᴰ.tail (Memᴰ.tail (Memᴰ.tail (Memᴰ.tail (Memᴰ.head refl))))),
                refl,
                refl,
              )
              refl))
          (constructs (plain "service.Evaluator" ("*zap.Logger" ∷ "pb.WorkerServiceClient" ∷ []))
            (refl, refl)
            (
              Memᴰ.tail
                  (Memᴰ.tail (Memᴰ.tail (Memᴰ.tail (Memᴰ.tail (Memᴰ.tail (Memᴰ.head refl)))))),
              refl,
              refl,
            )
            refl))
        (constructs
          (plain "*grpc_handler.OrchestratorServer"
            ("*zap.Logger" ∷ "repository.TaskRepository" ∷ "service.Evaluator" ∷ []))
          (refl, refl)
          (
            Memᴰ.tail (
                Memᴰ.tail
                  (Memᴰ.tail (Memᴰ.tail (Memᴰ.tail (Memᴰ.tail (Memᴰ.tail (Memᴰ.head refl))))))),
            refl,
            refl,
          )
          refl))
      (constructs (plain "*grpc.Server" ("*zap.Logger" ∷ [])) (refl, refl)
        (
          Memᴰ.tail (
              Memᴰ.tail (
                Memᴰ.tail
                  (Memᴰ.tail (Memᴰ.tail (Memᴰ.tail (Memᴰ.tail (Memᴰ.tail (Memᴰ.head refl)))))))),
          refl,
          refl,
        )
        refl)

abbrev serving : StartState
serving = record assembled { hooks = "server" ∷ assembled.hooks; has_invoked = true }

serving-run : StartRun (wiring orchestrator) before_start 10 serving
serving-run = then_step assembled-run (invokes (refl, refl) refl refl)

start_terminates_example :
    (5 ≤ 10)
    × ((connected.failed ≡ true)
        ⊎ (connected.has_invoked ≡ true)
        ⊎ ((t : StartState) × StartStep (wiring orchestrator) connected t))
start_terminates_example = start_terminates orchestrator 5 connected connected-run
