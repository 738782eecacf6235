-- ===== src/Start/Assembly.antt =====
-- That the start of a process comes to an end, and in which order its hooks stand then.
use mathlib.Core.List.{Memᴰ}
use ya_lyceum_go_project_fin.Prelude.{
  ℕ, suc, ◌+◌, ◌≤◌, ◌<◌, String, ◌≡◌, ◌⊎◌, inl, inr, refl, subst, true, false, List, [], ◌∷◌,
  str_eq, eq_iff, arith, Bool-cases, if◌then◌else◌,
}
use ya_lyceum_go_project_fin.Start.{
  Provider, Wiring, Process, agent, orchestrator, worker, wiring, StartState, before_start, has,
  has_all, IsRunning, IsCalled, StartStep, constructs, fails, invokes, StartRun, no_step, then_step,
}
use ya_lyceum_go_project_fin.Start.Order.{
  is_complete, wiring-is_complete, has_all-IsWithin, IsWithin-cons, callable, Mem-gives_of,
  Mem-other, same_provider, missing, missing-called,
}

module _ (w : Wiring) where
  steps_left : StartState → ℕ
  steps_left s =
      if s.failed then 0 else (if s.has_invoked then 0 else suc (missing w.providers s.values))

  step-steps_left : (s t : StartState) → StartStep w s t → steps_left t < steps_left s
  unfolding steps_left
  step-steps_left s t (constructs p (going, early) (known, ready, fresh) e) =
      ground (arith, e, going, early, missing-called w.providers p s.values known fresh)
  step-steps_left s t (fails p (going, early) called can e) = ground (arith, e, going, early)
  step-steps_left s t (invokes (going, early) ready e) = ground (arith, e, going, early)

  StartRun-steps_left :
      {s : StartState} {n : ℕ} {t : StartState} → StartRun w s n t → n + steps_left t ≤ steps_left s
  StartRun-steps_left no_step = omega arith
  StartRun-steps_left (then_step {t = t} {u = u} r st) =
      omega (arith, StartRun-steps_left r, step-steps_left t u st)

  -- What holds at every moment of the start.
  record IsAssembled (s : StartState) : Type 0 where
    lifecycle : has "fx.Lifecycle" s.values ≡ true
    waiting : s.has_invoked ≡ false → has "server" s.hooks ≡ false
    served :
        s.has_invoked ≡ true
        → (s.failed ≡ false)
          × (has_all w.invoked s.values ≡ true)
          × ((rest : List String) × (s.hooks ≡ "server" ∷ rest) × (has "server" rest ≡ false))
    hooks :
        (p : Provider)
        → Memᴰ p w.providers
        → p.has_hook ≡ true
        → has p.gives s.values ≡ true
        → has p.gives s.hooks ≡ true

  next :
      (s : StartState)
      → is_complete w ≡ true
      → has "fx.Lifecycle" s.values ≡ true
      → (s.failed ≡ true) ⊎ (s.has_invoked ≡ true) ⊎ ((t : StartState) × StartStep w s t)
  next s complete there = elim (Bool-cases s.failed) [
    | inl failed ↦ inl failed
    | inr going ↦ elim (Bool-cases s.has_invoked) [
      | inl done ↦ inr (inl done)
      | inr early ↦
          elim (callable ("fx.Lifecycle" ∷ []) w.providers s.values (ground arith)
            (IsWithin-cons "fx.Lifecycle" [] s.values (λ x h. cc) there)) [
              | inl all ↦ inr (
                  inr (
                    _,
                    invokes (going, early)
                        (has_all-IsWithin w.invoked _ s.values all (ground arith)) refl,
                  ))
              | inr (p, known, ready, fresh) ↦
                  inr (inr (_, constructs p (going, early) (known, ready, fresh) refl))
            ]
    ]
  ]

  before_start-IsAssembled : is_complete w ≡ true → IsAssembled before_start
  before_start-IsAssembled complete = record {
    lifecycle = refl;
    waiting = λ h. refl;
    served = λ h. cc;
    hooks = λ p known hook there.
        ground (arith, Mem-gives_of p w.providers known, eq_iff p.gives "fx.Lifecycle");
  }

  constructs-IsAssembled :
      (s : StartState) (p : Provider)
      → is_complete w ≡ true
      → IsRunning w s
      → IsCalled w p s
      → IsAssembled s
      → IsAssembled (record s {
        values = p.gives ∷ s.values;
        hooks = if p.has_hook then p.gives ∷ s.hooks else s.hooks;
      })
  constructs-IsAssembled s p complete (going, early) (known, ready, fresh) a = record {
    lifecycle = ground (arith, a.lifecycle);
    waiting =
        λ h. ground (arith, a.waiting h, Mem-other "server" p w.providers known (ground arith));
    served = λ h. cc;
    hooks = λ q known' hook there. elim (Bool-cases (str_eq q.gives p.gives)) [
      | inl same ↦
          let this : q ≡ p =
            same_provider w.providers q p (ground arith) known' known
              (ground (arith, eq_iff q.gives p.gives)) in
          let hooked : p.has_hook ≡ true = subst (λ r. r.has_hook ≡ true) this hook in ground arith
      | inr other ↦ ground (arith, a.hooks q known' hook (ground arith))
    ];
  }

  step-IsAssembled :
      (s t : StartState) → is_complete w ≡ true → StartStep w s t → IsAssembled s → IsAssembled t
  step-IsAssembled s t complete (constructs p going called e) a =
      rw e (constructs-IsAssembled s p complete going called a)
  step-IsAssembled s t complete (fails p (going, early) called can e) a =
      rw e
        (record { lifecycle = a.lifecycle; waiting = a.waiting; served = λ h. cc; hooks = a.hooks })
  step-IsAssembled s t complete (invokes (going, early) ready e) a = rw e (record {
    lifecycle = a.lifecycle;
    waiting = λ h. cc;
    served = λ h. (going, ready, (s.hooks, refl, a.waiting early));
    hooks = λ p known hook there. ground (arith, a.hooks p known hook there);
  })

  StartRun-IsAssembled :
      {n : ℕ} {s : StartState} → is_complete w ≡ true → StartRun w before_start n s → IsAssembled s
  StartRun-IsAssembled complete no_step = before_start-IsAssembled complete
  StartRun-IsAssembled complete (then_step r st) =
      step-IsAssembled _ _ complete st (StartRun-IsAssembled complete r)

abbrev step_bound : Process → ℕ
step_bound agent = 15
step_bound orchestrator = 10
step_bound worker = 6

before_start-steps_left : (a : Process) → steps_left (wiring a) before_start ≡ step_bound a
unfolding steps_left
before_start-steps_left agent = refl
before_start-steps_left orchestrator = refl
before_start-steps_left worker = refl

-- The start of the Agent has at most 15 steps, that of the Orchestrator 10 and that of the Worker 6, one for
-- each constructor and one for the invoked function; and until a constructor has failed or the
-- invoked function has run there is a next step, whatever the order of those before: no value that a
-- constructor or the invoked function takes is missing or waits for itself.
pub start_terminates :
    (a : Process) (n : ℕ) (s : StartState)
    → StartRun (wiring a) before_start n s
    → (n ≤ step_bound a)
      × ((s.failed ≡ true) ⊎ (s.has_invoked ≡ true) ⊎ ((t : StartState) × StartStep (wiring a) s t))
start_terminates a n s run = (
  omega (arith, StartRun-steps_left (wiring a) run, before_start-steps_left a),
  next (wiring a) s (wiring-is_complete a)
      (StartRun-IsAssembled (wiring a) (wiring-is_complete a) run).lifecycle,
)

-- When the invoked function of a process has run, no constructor has failed, and the hook of the server
-- stands after those of all constructors that have one and were called, so that fx, which stops in
-- the opposite order, would stop the server before it closes the pool and the connections.
pub start-IsOrdered :
    (a : Process) (n : ℕ) (s : StartState) (p : Provider)
    → StartRun (wiring a) before_start n s
    → s.has_invoked ≡ true
    → Memᴰ p (wiring a).providers
    → p.has_hook ≡ true
    → has p.gives s.values ≡ true
    → (s.failed ≡ false)
      × ((rest : List String) × (s.hooks ≡ "server" ∷ rest)
          × (has "server" rest ≡ false)
          × (has p.gives rest ≡ true))
start-IsOrdered a n s p run done known hook called =
    let o = StartRun-IsAssembled (wiring a) (wiring-is_complete a) run in
    let (going, _, (rest, order, once)) = o.served done in
    let complete = wiring-is_complete a in
    let other : str_eq "server" p.gives ≡ false =
      Mem-other "server" p (wiring a).providers known (ground arith) in
    let among : has p.gives ("server" ∷ rest) ≡ true =
      subst (λ hs. has p.gives hs ≡ true) order (o.hooks p known hook called) in
    (going, (rest, order, once, ground (arith, eq_iff "server" p.gives, eq_iff p.gives "server")))
