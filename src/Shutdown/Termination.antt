-- ===== src/Shutdown/Termination.antt =====
-- That a graceful shutdown ends, and does not wait for the HTTP server for ever.
use ya_lyceum_go_project_fin.Prelude.{
  ℕ, suc, ◌+◌, ◌≤◌, ◌<◌, String, ◌≡◌, ◌≢◌, ◌⊎◌, inl, inr, refl, Bool, true, List, arith, Bool-cases,
  if◌then◌else◌,
}
use ya_lyceum_go_project_fin.Shutdown.{
  Phase, awaiting, stopping, finished, HttpStop, not_called, running, returned, Shutdown, initial,
  stop_servers, close_pool, ShutdownStep, cancels, begins, returns, expires, all_stopped, times_out,
  ShutdownRun, no_step, then_step,
}

module _ (servers : List String) (has_pool : Bool) where
  phase_steps : Phase → ℕ
  phase_steps awaiting = 3
  phase_steps stopping = 1
  phase_steps finished = 0

  http_steps : HttpStop → ℕ
  http_steps not_called = 0
  http_steps running = 1
  http_steps returned = 0

  -- The steps that are left, at most.
  steps_left : Shutdown → ℕ
  unfolding phase_steps http_steps
  steps_left s =
      (if s.main_done then 0 else 1)
      + phase_steps s.phase
      + http_steps s.http
      + (if s.shutdown_done then 0 else 1)

  step-steps_left :
      (s t : Shutdown) → ShutdownStep servers has_pool s t → steps_left t < steps_left s
  unfolding steps_left
  step-steps_left s t (cancels m e) = ground (arith, e, m)
  step-steps_left s t (begins p m e) = ground (arith, e, p, m)
  step-steps_left s t (returns r e) = ground (arith, e, r)
  step-steps_left s t (expires p d e) = ground (arith, e, p, d)
  step-steps_left s t (all_stopped p r e) = ground (arith, e, p, r)
  step-steps_left s t (times_out p d e) = ground (arith, e, p, d)

  ShutdownRun-steps_left :
      {s : Shutdown} {n : ℕ} {t : Shutdown}
      → ShutdownRun servers has_pool s n t
      → n + steps_left t ≤ steps_left s
  ShutdownRun-steps_left no_step = omega arith
  ShutdownRun-steps_left (then_step {t = t} {u = u} r st) =
      omega (arith, ShutdownRun-steps_left r, step-steps_left t u st)

  first_then :
      {s t u : Shutdown} {n : ℕ}
      → ShutdownStep servers has_pool s t
      → ShutdownRun servers has_pool t n u
      → ShutdownRun servers has_pool s (suc n) u
  first_then st no_step = then_step no_step st
  first_then st (then_step r last) = then_step (first_then st r) last

  -- A shutdown can finish while its call of the HTTP server's stop does not return.
  pub record CanFinish (s : Shutdown) : Type 0 where
    pub steps : ℕ
    pub end : Shutdown
    pub run : ShutdownRun servers has_pool s steps end
    pub ended : end.phase ≡ finished
    pub unaided : (s.http ≡ returned) ⊎ (end.http ≢ returned)

  returned-cases : (h h' : HttpStop) → h' ≡ h → (h ≡ returned) ⊎ (h' ≢ returned)
  returned-cases not_called h' e = inr (λ q. cc)
  returned-cases running h' e = inr (λ q. cc)
  returned-cases returned h' e = inl refl

  times_out-CanFinish : (s : Shutdown) → s.phase ≡ stopping → s.shutdown_done ≡ true → CanFinish s
  times_out-CanFinish s here passed = record {
    steps = 1;
    end = close_pool servers has_pool s;
    run = then_step no_step (times_out here passed refl);
    ended = refl;
    unaided = returned-cases s.http s.http refl;
  }

  after_step :
      (s t : Shutdown)
      → ShutdownStep servers has_pool s t
      → (t.http ≡ returned → s.http ≡ returned)
      → CanFinish t
      → CanFinish s
  after_step s t st keeps f = record {
    steps = suc f.steps;
    end = f.end;
    run = first_then st f.run;
    ended = f.ended;
    unaided = elim f.unaided [ inl back ↦ inl (keeps back) | inr not_back ↦ inr not_back ];
  }

  stopping-CanFinish : (s : Shutdown) → s.phase ≡ stopping → CanFinish s
  stopping-CanFinish s here = elim (Bool-cases s.shutdown_done) [
    | inl passed ↦ times_out-CanFinish s here passed
    | inr early ↦
        after_step s (record s { shutdown_done = true }) (expires here early refl) (λ e. e)
          (times_out-CanFinish (record s { shutdown_done = true }) here refl)
  ]

  cancelled-CanFinish : (s : Shutdown) → s.phase ≡ awaiting → s.main_done ≡ true → CanFinish s
  cancelled-CanFinish s here cancelled =
      after_step s (stop_servers servers has_pool s) (begins here cancelled refl) (ground arith)
        (stopping-CanFinish (stop_servers servers has_pool s) (ground arith))

  phase-CanFinish : (s : Shutdown) (p : Phase) → s.phase ≡ p → CanFinish s
  phase-CanFinish s finished here = record {
    steps = 0;
    end = s;
    run = no_step;
    ended = here;
    unaided = returned-cases s.http s.http refl;
  }
  phase-CanFinish s stopping here = stopping-CanFinish s here
  phase-CanFinish s awaiting here = elim (Bool-cases s.main_done) [
    | inl cancelled ↦ cancelled-CanFinish s here cancelled
    | inr running_on ↦
        after_step s (record s { main_done = true }) (cancels running_on refl) (λ e. e)
          (cancelled-CanFinish (record s { main_done = true }) here refl)
  ]

  -- No run of a shutdown has more than five steps, and every run can be continued to the end, with the
  -- call that stops the HTTP server not returning if it has not returned before: a shutdown does not
  -- depend on that call.
  pub shutdown_terminates :
      {n : ℕ} {s : Shutdown} → ShutdownRun servers has_pool initial n s → (n ≤ 5) × CanFinish s
  unfolding steps_left
  shutdown_terminates {s = s} r =
      (omega (arith, ShutdownRun-steps_left r), phase-CanFinish s s.phase refl)
