-- ===== src/Shutdown/Laws.antt =====
-- How a graceful shutdown goes: what is stopped, and in which order.
use ya_lyceum_go_project_fin.Prelude.{
  ℕ, String, ◌≡◌, ◌≢◌, ◌⊎◌, inl, inr, refl, Bool, true, false, List, [], eq_iff, arith, Bool-cases,
}
use ya_lyceum_go_project_fin.Shutdown.{
  awaiting, stopping, finished, HttpStop, not_called, running, returned, Shutdown, initial,
  has_name, stop_servers, close_pool, ShutdownStep, cancels, begins, returns, expires, all_stopped,
  times_out, ShutdownRun, no_step, then_step,
}

module _ (servers : List String) (has_pool : Bool) where
  -- What holds at every moment of a shutdown.
  pub record IsOrderly (s : Shutdown) : Type 0 where
    pub before : s.phase ≡ awaiting → (s.called ≡ []) × (s.pool_closed ≡ false)
    pub only_http :
        (name : String)
        → has_name name s.called ≡ true
        → (name ≡ "http") × (has_name "http" servers ≡ true)
    pub asked :
        s.phase ≢ awaiting
        → has_name "http" servers ≡ true
        → (has_name "http" s.called ≡ true) × (s.http ≢ not_called)
    pub waited :
        s.phase ≡ finished
        → (s.http ≡ returned) ⊎ (has_name "http" servers ≡ false) ⊎ (s.shutdown_done ≡ true)
    pub pool_last : s.pool_closed ≡ true → s.phase ≡ finished
    pub pool_closed_at_end : s.phase ≡ finished → s.pool_closed ≡ has_pool

  initial-IsOrderly : IsOrderly initial
  initial-IsOrderly = record {
    before = λ h. (refl, refl);
    only_http = λ name h. cc;
    asked = λ begun known. absurd (begun refl);
    waited = λ h. cc;
    pool_last = λ h. cc;
    pool_closed_at_end = λ h. cc;
  }

  close_pool-IsOrderly :
      (s : Shutdown)
      → s.phase ≡ stopping
      → (s.http ≡ returned) ⊎ (has_name "http" servers ≡ false) ⊎ (s.shutdown_done ≡ true)
      → IsOrderly s
      → IsOrderly (close_pool servers has_pool s)
  close_pool-IsOrderly s here ready o = record {
    before = λ h. cc;
    only_http = o.only_http;
    asked = λ begun. o.asked (λ e. cc);
    waited = λ h. ready;
    pool_last = λ h. refl;
    pool_closed_at_end = λ h. refl;
  }

  stop_servers-IsOrderly :
      (s : Shutdown)
      → s.phase ≡ awaiting
      → IsOrderly s
      → IsOrderly (stop_servers servers has_pool s)
  stop_servers-IsOrderly s here o =
      let (none_called, unclosed) = o.before here in
      elim (Bool-cases (has_name "http" servers)) [
        | inl known ↦ rw known (record {
          before = λ h. cc;
          only_http = λ name h. (ground (arith, eq_iff name "http"), known);
          asked = λ begun k. (refl, λ e. cc);
          waited = λ h. cc;
          pool_last = λ h. cc;
          pool_closed_at_end = λ h. cc;
        })
        | inr unknown ↦ rw unknown (record {
          before = λ h. cc;
          only_http = λ name h. ground (arith, none_called);
          asked = λ begun k. cc;
          waited = λ h. cc;
          pool_last = λ h. cc;
          pool_closed_at_end = λ h. cc;
        })
      ]

  HttpStop-cases : (h : HttpStop) → (h ≡ not_called) ⊎ (h ≡ running) ⊎ (h ≡ returned)
  HttpStop-cases not_called = inl refl
  HttpStop-cases running = inr (inl refl)
  HttpStop-cases returned = inr (inr refl)

  -- A server that is not running while the others stop has been stopped, or there is none.
  stopped :
      (s : Shutdown)
      → s.phase ≡ stopping
      → s.http ≢ running
      → IsOrderly s
      → (s.http ≡ returned) ⊎ (has_name "http" servers ≡ false) ⊎ (s.shutdown_done ≡ true)
  stopped s here idle o = elim (Bool-cases (has_name "http" servers)) [
    | inr unknown ↦ inr (inl unknown)
    | inl known ↦ elim (HttpStop-cases s.http) [
      | inl none_yet ↦ absurd ((o.asked (λ e. cc) known).1 none_yet)
      | inr (inl busy) ↦ absurd (idle busy)
      | inr (inr back) ↦ inl back
    ]
  ]

  ShutdownStep-IsOrderly :
      (s t : Shutdown) → ShutdownStep servers has_pool s t → IsOrderly s → IsOrderly t
  ShutdownStep-IsOrderly s t (cancels m e) o = rw e (record {
    before = o.before;
    only_http = o.only_http;
    asked = o.asked;
    waited = o.waited;
    pool_last = o.pool_last;
    pool_closed_at_end = o.pool_closed_at_end;
  })
  ShutdownStep-IsOrderly s t (begins p m e) o = rw e (stop_servers-IsOrderly s p o)
  ShutdownStep-IsOrderly s t (returns r e) o = rw e (record {
    before = o.before;
    only_http = o.only_http;
    asked = λ begun known. ((o.asked begun known).0, λ e. cc);
    waited = λ h. inl refl;
    pool_last = o.pool_last;
    pool_closed_at_end = o.pool_closed_at_end;
  })
  ShutdownStep-IsOrderly s t (expires p d e) o = rw e (record {
    before = o.before;
    only_http = o.only_http;
    asked = o.asked;
    waited = λ h. inr (inr refl);
    pool_last = o.pool_last;
    pool_closed_at_end = o.pool_closed_at_end;
  })
  ShutdownStep-IsOrderly s t (all_stopped p r e) o =
      rw e (close_pool-IsOrderly s p (stopped s p r o) o)
  ShutdownStep-IsOrderly s t (times_out p d e) o = rw e (close_pool-IsOrderly s p (inr (inr d)) o)

  -- At every moment of a shutdown: no server was asked to stop but the one under the name "http", and
  -- only if there is one; none while it waits for the context, and after that the one under
  -- "http", if there is one, has been asked; the pool of connections is not closed before the end; and at the end
  -- it is closed, if there is one, and the call that stops the HTTP server has returned, or there is no
  -- such server, or the timeout has passed.
  pub ShutdownRun-IsOrderly :
      {n : ℕ} {s : Shutdown} → ShutdownRun servers has_pool initial n s → IsOrderly s
  ShutdownRun-IsOrderly no_step = initial-IsOrderly
  ShutdownRun-IsOrderly (then_step r st) = ShutdownStep-IsOrderly _ _ st (ShutdownRun-IsOrderly r)
