-- ===== src/System/Running.antt =====
-- The goroutines as a list in no particular order: whose task they evaluate.
use ya_lyceum_go_project_fin.Prelude.{
  ◌≡◌, Bool, true, false, inl, inr, subst, Bool-cases, Option, none, some, if◌then◌else◌, ◌||◌,
  List, [], ◌∷◌, ◌==◌, arith, refl,
}
use ya_lyceum_go_project_fin.Database.{Uuid}
use ya_lyceum_go_project_fin.System.{Goroutine, Picks, first, later}

module _ {F : Type 0} where
  abbrev pub is_running : Uuid → List (Goroutine F) → Bool
  is_running k [] = false
  is_running k (r ∷ rs) = r.evaluation.task_id == k || is_running k rs

  -- No task is evaluated twice at a time.
  abbrev pub HasDistinctTasks : List (Goroutine F) → Type 0
  HasDistinctTasks [] = Unit
  HasDistinctTasks (r ∷ rs) = (is_running r.evaluation.task_id rs ≡ false) × HasDistinctTasks rs

  abbrev pub All : (Goroutine F → Type 0) → List (Goroutine F) → Type 0
  All P [] = Unit
  All P (r ∷ rs) = P r × All P rs

  pub Picks-is_running :
      {rs rest : List (Goroutine F)} {r : Goroutine F} (k : Uuid)
      → Picks rs r rest
      → is_running k rs ≡ is_running k (r ∷ rest)
  Picks-is_running k (first r rs) = refl
  Picks-is_running k (later q p) = ground (arith, Picks-is_running k p)

  pub Picks-HasDistinctTasks :
      {rs rest : List (Goroutine F)} {r : Goroutine F}
      → Picks rs r rest
      → HasDistinctTasks rs
      → HasDistinctTasks (r ∷ rest)
  Picks-HasDistinctTasks (first r rs) h = h
  Picks-HasDistinctTasks (later q p) (fresh, h) =
      let (fresh', h') = Picks-HasDistinctTasks p h in
      (
        ground (arith, Picks-is_running q.evaluation.task_id p),
        (ground (arith, Picks-is_running q.evaluation.task_id p), h'),
      )

  pub Picks-All :
      (P : Goroutine F → Type 0) {rs rest : List (Goroutine F)} {r : Goroutine F}
      → Picks rs r rest
      → All P rs
      → All P (r ∷ rest)
  Picks-All P (first r rs) h = h
  Picks-All P (later q p) (here, h) = let (there, h') = Picks-All P p h in (there, (here, h'))

  -- The goroutine of a task.
  abbrev pub goroutine_of : Uuid → List (Goroutine F) → Option (Goroutine F)
  goroutine_of k [] = none
  goroutine_of k (r ∷ rs) = if r.evaluation.task_id == k then some r else goroutine_of k rs

  pub goroutine_of-missing :
      (k : Uuid) (rs : List (Goroutine F)) → is_running k rs ≡ false → goroutine_of k rs ≡ none
  goroutine_of-missing k [] h = refl
  goroutine_of-missing k (r ∷ rs) h = ground (arith, goroutine_of-missing k rs)

  pub Picks-goroutine_of :
      {rs rest : List (Goroutine F)} {r : Goroutine F} (k : Uuid)
      → Picks rs r rest
      → HasDistinctTasks rs
      → goroutine_of k rs ≡ goroutine_of k (r ∷ rest)
  Picks-goroutine_of k (first r rs) h = refl
  Picks-goroutine_of k (later q p) (fresh, h) =
      ground (arith, Picks-goroutine_of k p h, Picks-is_running q.evaluation.task_id p)

  pub All-goroutine_of :
      (P : Goroutine F → Type 0) (k : Uuid) (rs : List (Goroutine F)) (r : Goroutine F)
      → All P rs
      → goroutine_of k rs ≡ some r
      → P r
  All-goroutine_of P k [] r h found = cc
  All-goroutine_of P k (q ∷ rs) r (here, there) found =
      elim (Bool-cases (q.evaluation.task_id == k)) [
        | inl same ↦ let this : q ≡ r = ground (arith, found) in subst P this here
        | inr differs ↦ All-goroutine_of P k rs r there (ground (arith, found))
      ]

  pub goroutine_of-is_running :
      (k : Uuid) (rs : List (Goroutine F)) (r : Goroutine F)
      → goroutine_of k rs ≡ some r
      → is_running k rs ≡ true
  goroutine_of-is_running k [] r h = cc
  goroutine_of-is_running k (q ∷ rs) r h = ground (arith, goroutine_of-is_running k rs r)

  pub goroutine_of-Picks :
      (k : Uuid) (rs : List (Goroutine F)) (r : Goroutine F)
      → goroutine_of k rs ≡ some r
      → (rest : List (Goroutine F)) × Picks rs r rest
  goroutine_of-Picks k [] r h = cc
  goroutine_of-Picks k (q ∷ rs) r h = elim (Bool-cases (q.evaluation.task_id == k)) [
    | inl same ↦
        let this : q ≡ r = ground (arith, h) in
        (rs, subst (λ x. Picks (q ∷ rs) x rs) this (first q rs))
    | inr differs ↦
        let (rest, p) = goroutine_of-Picks k rs r (ground (arith, h)) in (q ∷ rest, later q p)
  ]
