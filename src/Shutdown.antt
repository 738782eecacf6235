-- ===== src/Shutdown.antt =====
-- internal/pkg/shutdown/shutdown.go: Graceful, its goroutine that stops the HTTP server, and the two
-- contexts that it waits for, as steps in any order. Before the first step it waits for `mainCtx`.
pub mod Laws
pub mod Termination
mod Tests
use ya_lyceum_go_project_fin.Prelude.{
  ℕ, suc, String, ◌≡◌, ◌≢◌, Bool, true, false, ◌||◌, List, [], ◌∷◌, str_eq, if◌then◌else◌,
}

-- Before `mainCtx.Done()`, in the second `select`, and after it.
pub data Phase : Type 0 where
  awaiting stopping finished : Phase

-- `stopHTTPServer(shutdownCtx)`: not called, running, and returned, with an error or without.
pub data HttpStop : Type 0 where
  not_called running returned : HttpStop

-- `called` are the names under which servers were stopped.
pub record Shutdown : Type 0 where
  pub main_done : Bool
  pub shutdown_done : Bool
  pub phase : Phase
  pub http : HttpStop
  pub called : List String
  pub pool_closed : Bool

abbrev pub initial : Shutdown
initial = record {
  main_done = false;
  shutdown_done = false;
  phase = awaiting;
  http = not_called;
  called = [];
  pool_closed = false;
}

abbrev pub has_name : String → List String → Bool
has_name n [] = false
has_name n (m ∷ ms) = str_eq n m || has_name n ms

-- The servers are given by their names, and `has_pool` is `dbPool != nil`.
module _ (servers : List String) (has_pool : Bool) where
  -- From `<-mainCtx.Done()` to the second `select`.
  abbrev pub stop_servers : Shutdown → Shutdown
  stop_servers s =
      if has_name "http" servers
      then record s { phase = stopping; http = running; called = "http" ∷ s.called }
      else record s { phase = stopping }

  -- Both branches of the second `select`.
  abbrev pub close_pool : Shutdown → Shutdown
  close_pool s = record s { phase = finished; pool_closed = has_pool }

  pub data ShutdownStep (s t : Shutdown) : Type 0 where
    -- A signal, or the context is cancelled elsewhere.
    cancels : s.main_done ≡ false → t ≡ record s { main_done = true } → ShutdownStep s t
    begins : s.phase ≡ awaiting → s.main_done ≡ true → t ≡ stop_servers s → ShutdownStep s t
    returns : s.http ≡ running → t ≡ record s { http = returned } → ShutdownStep s t
    -- The timeout passes.
    expires :
        s.phase ≡ stopping
        → s.shutdown_done ≡ false
        → t ≡ record s { shutdown_done = true }
        → ShutdownStep s t
    -- `allServersStopped` is closed.
    all_stopped : s.phase ≡ stopping → s.http ≢ running → t ≡ close_pool s → ShutdownStep s t
    times_out : s.phase ≡ stopping → s.shutdown_done ≡ true → t ≡ close_pool s → ShutdownStep s t

  pub data ShutdownRun (s : Shutdown) : ℕ → Shutdown → Type 0 where
    no_step : ShutdownRun s 0 s
    then_step :
        {n : ℕ} {t u : Shutdown} → ShutdownRun s n t → ShutdownStep t u → ShutdownRun s (suc n) u
