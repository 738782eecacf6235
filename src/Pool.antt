-- ===== src/Pool.antt =====
-- internal/pkg/postgres/postgres.go: the connection pool and the attempts to reach the server, over
-- github.com/jackc/pgx/v5/pgxpool as a parameter.
mod Tests
use ya_lyceum_go_project_fin.Prelude.{
  ℕ, zero, suc, ◌+◌, ◌-◌, ◌%◌, ◌≤◌, ◌<◌, String, ◌≡◌, ◌↔◌, ◌⊎◌, inl, inr, refl, subst, sym, ap, ◌∙◌,
  Bool, true, false, Option, none, some, List, [], ◌∷◌, ltb, leb, ◌==◌, arith, Option-cases,
  if◌then◌else◌,
}
use ya_lyceum_go_project_fin.Errors.{Error, new, wrap, sprint, Result, ok, err, Result-cases}
use ya_lyceum_go_project_fin.Grpc.{Rpc, message}
use ya_lyceum_go_project_fin.Float64.{ℤ, pos, negsuc}

-- `int32(n)` of an int that is not negative.
abbrev to_int32 : ℕ → ℤ
to_int32 n =
    let low = n % 4294967296 in
    if ltb low 2147483648 then pos low else negsuc (4294967296 - low - 1)

-- `MaxConns`: a size that is not positive counts as the default of 10.
abbrev pub max_conns : ℤ → ℤ
max_conns (pos n) = if n == 0 then pos 10 else to_int32 n
max_conns (negsuc n) = pos 10

-- The library, and what it answers: `ParseConfig`, `NewWithConfig` with the number of connections,
-- `Ping` at each attempt, and `ctx.Err()` if the wait after an attempt is cut short.
pub record Pgxpool (D : Type 0) : Type 0 where
  pub parse_config : String → Result D
  pub new_with_config : D → ℤ → Result (Unit {0})
  pub ping : ℕ → Option Error
  pub wait : ℕ → Option Error

-- How the loop ends.
pub data Ended : Type 0 where
  connected : Ended
  refused : Error → Ended
  cancelled : Error → Ended

-- What the call leaves: whether a pool was opened, whether it is closed again, and the answer.
pub record Pooled : Type 0 where
  pub opened : Bool
  pub closed : Bool
  pub answer : Result (Unit {0})

module _ {D : Type 0} (rpc : Rpc) (lib : Pgxpool D) where
  abbrev after_attempts : Option Error → Ended
  after_attempts none = connected
  after_attempts (some e) = refused e

  -- The loop with so many attempts left, from an attempt on, with the last error.
  unfoldable pub ping_loop : ℕ → ℕ → Option Error → Ended
  ping_loop zero attempt ping_err = after_attempts ping_err
  ping_loop (suc n) attempt ping_err =
      let rest = ping_loop n (suc attempt) (lib.ping attempt) in
      elim (lib.ping attempt) [
        | none ↦ connected
        | some e ↦ elim (lib.wait attempt) [ none ↦ rest | some c ↦ cancelled c ]
      ]

  after_ping : Ended → Pooled
  unfolding message
  after_ping connected = record { opened = true; closed = false; answer = ok tt }
  after_ping (refused e) = record {
    opened = true;
    closed = true;
    answer = err (
        wrap
          (sprint ("не удалось подключиться к PostgreSQL после 5 попыток: " ∷ message rpc e ∷ []))
          e);
  }
  after_ping (cancelled e) = record {
    opened = true;
    closed = true;
    answer =
        err (wrap (sprint ("проверка соединения с PostgreSQL отменена: " ∷ message rpc e ∷ [])) e);
  }

  unopened : String → Error → Pooled
  unfolding message
  unopened what e = record {
    opened = false;
    closed = false;
    answer = err (wrap (sprint (what ∷ message rpc e ∷ [])) e);
  }

  unfoldable pub new_pool : String → ℤ → Pooled
  unfolding ping_loop after_ping unopened
  new_pool dsn max_pool_size = elim (lib.parse_config dsn) [
    | err e ↦ unopened "не удалось разобрать DSN для PostgreSQL: " e
    | ok config ↦ elim (lib.new_with_config config (max_conns max_pool_size)) [
      | err e ↦ unopened "не удалось создать пул соединений PostgreSQL: " e
      | ok _ ↦ after_ping (ping_loop 5 1 none)
    ]
  ]

  -- An attempt that reaches the server, with no wait before it cut short.
  abbrev pub IsReached : ℕ → ℕ → Type 0
  IsReached n attempt =
      (k : ℕ) × (k < n)
      × (lib.ping (attempt + k) ≡ none)
      × ((j : ℕ) → j < k → lib.wait (attempt + j) ≡ none)

  IsReached-now : (n attempt : ℕ) → lib.ping attempt ≡ none → IsReached (suc n) attempt
  IsReached-now n attempt p =
      (0, omega arith, subst (λ x. lib.ping x ≡ none) (omega arith) p, λ j below. ground arith)

  waited_until :
      (n attempt k : ℕ)
      → lib.wait attempt ≡ none
      → ((j : ℕ) → j < k → lib.wait (suc attempt + j) ≡ none)
      → (j : ℕ) → j < suc k
      → lib.wait (attempt + j) ≡ none
  waited_until n attempt k w ws zero below = subst (λ x. lib.wait x ≡ none) (omega arith) w
  waited_until n attempt k w ws (suc j) below =
      subst (λ x. lib.wait x ≡ none) (omega arith) (ws j (omega (arith, below)))

  IsReached-later :
      (n attempt : ℕ)
      → lib.wait attempt ≡ none
      → IsReached n (suc attempt)
      → IsReached (suc n) attempt
  IsReached-later n attempt w (k, below, p, ws) = (
    suc k,
    omega (arith, below),
    subst (λ x. lib.ping x ≡ none) (omega arith) p,
    waited_until n attempt k w ws,
  )

  ping_loop-connected :
      (n attempt : ℕ) (last : Option Error) (e : Error)
      → last ≡ some e
      → ping_loop n attempt last ≡ connected
      → IsReached n attempt
  unfolding ping_loop
  ping_loop-connected zero attempt none e l h = cc
  ping_loop-connected zero attempt (some f) e l h = cc
  ping_loop-connected (suc n) attempt last e l h = elim (Option-cases (lib.ping attempt)) [
    | inl p ↦ IsReached-now n attempt p
    | inr (f, p) ↦ elim (Option-cases (lib.wait attempt)) [
      | inl w ↦
          IsReached-later n attempt w
            (ping_loop-connected n (suc attempt) (lib.ping attempt) f p (rw (p, w, ping_loop) at h))
      | inr (c, w) ↦ cc (rw (p, w, ping_loop) at h)
    ]
  ]

  connected-ping_loop :
      (n attempt k : ℕ) (last : Option Error)
      → k < n
      → lib.ping (attempt + k) ≡ none
      → ((j : ℕ) → j < k → lib.wait (attempt + j) ≡ none)
      → ping_loop n attempt last ≡ connected
  unfolding ping_loop
  connected-ping_loop zero attempt k last below p ws = ground arith
  connected-ping_loop (suc n) attempt zero last below p ws =
      let now : lib.ping attempt ≡ none = subst (λ x. lib.ping x ≡ none) (omega arith) p in
      rw (now, ping_loop)
  connected-ping_loop (suc n) attempt (suc k) last below p ws =
      elim (Option-cases (lib.ping attempt)) [
        | inl now ↦ rw (now, ping_loop)
        | inr (f, now) ↦
            let waited : lib.wait attempt ≡ none =
              subst (λ x. lib.wait x ≡ none) (omega arith) (ws 0 (omega arith)) in
            let later =
              connected-ping_loop n (suc attempt) k (lib.ping attempt) (omega (arith, below))
                (subst (λ x. lib.ping x ≡ none) (omega arith) p)
                (λ j b.
                  subst (λ x. lib.wait x ≡ none) (omega arith) (ws (suc j) (omega (arith, b)))) in
            rw (now, waited, ping_loop) later
      ]

  new_pool-opened :
      (dsn : String) (size : ℤ) (config : D)
      → lib.parse_config dsn ≡ ok config
      → lib.new_with_config config (max_conns size) ≡ ok tt
      → new_pool dsn size ≡ after_ping (ping_loop 5 1 none)
  unfolding new_pool
  new_pool-opened dsn size config parsed created = rw (parsed, created, new_pool)

  after_ping-ok : (x : Ended) → (after_ping x).answer ≡ ok tt → x ≡ connected
  unfolding after_ping
  after_ping-ok connected h = refl
  after_ping-ok (refused e) h = cc
  after_ping-ok (cancelled e) h = cc

  -- Where the pool can be opened, NewPool succeeds exactly if one of five attempts reaches the server
  -- and no wait before that attempt is cut short.
  pub new_pool_iff :
      (dsn : String) (size : ℤ) (config : D)
      → lib.parse_config dsn ≡ ok config
      → lib.new_with_config config (max_conns size) ≡ ok tt
      → ((new_pool dsn size).answer ≡ ok tt) ↔ IsReached 5 1
  unfolding ping_loop after_ping
  new_pool_iff dsn size config parsed created =
      let same = new_pool-opened dsn size config parsed created in
      (
        λ h.
            ping_loop-connected 5 1 (some (new "")) (new "") refl
              (after_ping-ok (ping_loop 5 1 none) (ap (λ r. r.answer) (sym same) ∙ h)),
        λ (k, below, p, ws).
            ap (λ r. r.answer) same
            ∙ ap (λ x. (after_ping x).answer) (connected-ping_loop 5 1 k none below p ws),
      )
