-- ===== src/Database/Tables.antt =====
-- Laws of the statements on the table of tasks: what an insertion and an update do to the row with a
-- key, and what they do to the keys.
use ya_lyceum_go_project_fin.Prelude.{
  ◌≡◌, refl, true, false, ◌||◌, none, some, List, [], ◌∷◌, ◌++◌, ◌==◌, arith, if◌then◌else◌,
}
use mathlib.Core.Option
use ya_lyceum_go_project_fin.Database.{Uuid, Task, find_task, has_task, update_rows, count_rows}

module _ {F : Type 0} where
  -- After an update of the rows with one key, that key has its row changed and every other its own.
  pub find_task-update_rows :
      (k j : Uuid) (f : Task F → Task F) (ts : List (Task F))
      → ((t : Task F) → (f t).id ≡ t.id)
      → find_task j (update_rows k f ts)
        ≡ (if k == j then Option.map f (find_task j ts) else find_task j ts)
  unfolding update_rows
  find_task-update_rows k j f [] keeps = ground arith
  find_task-update_rows k j f (t ∷ ts) keeps =
      ground (arith, find_task-update_rows k j f ts keeps, keeps t)

  pub find_task-append :
      (j : Uuid) (ts us : List (Task F))
      → find_task j (ts ++ us) ≡ (if has_task j ts then find_task j ts else find_task j us)
  find_task-append j [] us = refl
  find_task-append j (t ∷ ts) us = ground (arith, find_task-append j ts us)

  pub has_task-eq_some :
      (j : Uuid) (ts : List (Task F)) (t : Task F) → find_task j ts ≡ some t → has_task j ts ≡ true
  has_task-eq_some j [] t h = cc
  has_task-eq_some j (u ∷ ts) t h = ground (arith, has_task-eq_some j ts t)

  pub find_task-eq_none :
      (j : Uuid) (ts : List (Task F)) → has_task j ts ≡ false → find_task j ts ≡ none
  find_task-eq_none j [] h = refl
  find_task-eq_none j (u ∷ ts) h = ground (arith, find_task-eq_none j ts)

  pub find_task-id :
      (j : Uuid) (ts : List (Task F)) (t : Task F) → find_task j ts ≡ some t → t.id ≡ j
  find_task-id j [] t h = cc
  find_task-id j (u ∷ ts) t h = ground (arith, find_task-id j ts t)

  pub count_rows-eq_zero :
      (j : Uuid) (ts : List (Task F))
      → (count_rows j ts == 0) ≡ (if has_task j ts then false else true)
  unfolding count_rows
  count_rows-eq_zero j [] = refl
  count_rows-eq_zero j (u ∷ ts) = ground (arith, count_rows-eq_zero j ts)

  pub has_task-update_rows :
      (k j : Uuid) (f : Task F → Task F) (ts : List (Task F))
      → ((t : Task F) → (f t).id ≡ t.id)
      → has_task j (update_rows k f ts) ≡ has_task j ts
  unfolding update_rows
  has_task-update_rows k j f [] keeps = refl
  has_task-update_rows k j f (t ∷ ts) keeps =
      ground (arith, has_task-update_rows k j f ts keeps, keeps t)

  pub has_task-append :
      (j : Uuid) (ts us : List (Task F)) → has_task j (ts ++ us) ≡ has_task j ts || has_task j us
  has_task-append j [] us = refl
  has_task-append j (t ∷ ts) us = ground (arith, has_task-append j ts us)

  -- No two rows have one key: PRIMARY KEY (id).
  abbrev pub HasUniqueKeys : List (Task F) → Type 0
  HasUniqueKeys [] = Unit
  HasUniqueKeys (t ∷ ts) = (has_task t.id ts ≡ false) × HasUniqueKeys ts

  pub update_rows-HasUniqueKeys :
      (k : Uuid) (f : Task F → Task F) (ts : List (Task F))
      → ((t : Task F) → (f t).id ≡ t.id)
      → HasUniqueKeys ts
      → HasUniqueKeys (update_rows k f ts)
  unfolding update_rows
  update_rows-HasUniqueKeys k f [] keeps u = tt
  update_rows-HasUniqueKeys k f (t ∷ ts) keeps (fresh, u) = (
    ground (arith, has_task-update_rows k t.id f ts keeps, keeps t),
    update_rows-HasUniqueKeys k f ts keeps u,
  )

  pub append-HasUniqueKeys :
      (ts : List (Task F)) (t : Task F)
      → HasUniqueKeys ts
      → has_task t.id ts ≡ false
      → HasUniqueKeys (ts ++ t ∷ [])
  append-HasUniqueKeys [] t u h = (refl, tt)
  append-HasUniqueKeys (s ∷ ts) t (fresh, u) h =
      (ground (arith, has_task-append s.id ts (t ∷ [])), append-HasUniqueKeys ts t u (ground arith))
