-- ===== src/Shutdown/Tests.antt =====
-- The shutdown of the Agent, cut short by its timeout, and of the Orchestrator.
use ya_lyceum_go_project_fin.Prelude.{◌≤◌, refl, true, false, [], ◌∷◌}
use ya_lyceum_go_project_fin.Shutdown.{
  stopping, finished, running, Shutdown, initial, cancels, begins, expires, times_out, all_stopped,
  ShutdownRun, no_step, then_step,
}
use ya_lyceum_go_project_fin.Shutdown.Laws.{IsOrderly, ShutdownRun-IsOrderly}
use ya_lyceum_go_project_fin.Shutdown.Termination.{CanFinish, shutdown_terminates}

abbrev cut_short : Shutdown
cut_short = record {
  main_done = true;
  shutdown_done = true;
  phase = finished;
  http = running;
  called = "http" ∷ [];
  pool_closed = true;
}

-- The HTTP server is not stopped yet.
abbrev stuck : Shutdown
stuck = record {
  main_done = true;
  shutdown_done = false;
  phase = stopping;
  http = running;
  called = "http" ∷ [];
  pool_closed = false;
}

stuck-run : ShutdownRun ("http" ∷ []) true initial 2 stuck
stuck-run = then_step (then_step no_step (cancels refl refl)) (begins refl refl refl)

cut_short-run : ShutdownRun ("http" ∷ []) true initial 4 cut_short
cut_short-run =
    then_step
      (then_step (then_step (then_step no_step (cancels refl refl)) (begins refl refl refl))
        (expires refl refl refl))
      (times_out refl refl refl)

-- The server of the Orchestrator, which is named "grpc", is not stopped.
orchestrator-run :
    ShutdownRun
      ("grpc" ∷ [])
      true
      initial
      3
      (record initial { main_done = true; phase = finished; pool_closed = true })
orchestrator-run =
    then_step (then_step (then_step no_step (cancels refl refl)) (begins refl refl refl))
      (all_stopped refl (λ h. cc) refl)

ShutdownRun-IsOrderly_example : IsOrderly ("http" ∷ []) true cut_short
ShutdownRun-IsOrderly_example = ShutdownRun-IsOrderly ("http" ∷ []) true cut_short-run

shutdown_terminates_example : (2 ≤ 5) × CanFinish ("http" ∷ []) true stuck
shutdown_terminates_example = shutdown_terminates ("http" ∷ []) true stuck-run
