-- ===== src/Orchestrator/Repository/Listing.antt =====
-- What GetTasksByUserID returns: all tasks of the user, newest first, or an error.
use ya_lyceum_go_project_fin.Prelude.{
  ℕ, suc, ◌≤◌, ◌≡◌, inl, inr, ◌∙◌, Option, List, [], ◌∷◌, ◌++◌, leb, arith, Option-cases,
  Bool-cases,
}
use mathlib.Core.List.{Perm, append_assoc, append-nil}
use mathlib.Core.List.Perm
use ya_lyceum_go_project_fin.Errors.{Error, ok}
use ya_lyceum_go_project_fin.Grpc.{Rpc}
use ya_lyceum_go_project_fin.Database.{Uuid, Task, Db, insert_newest, newest_first, of_user}
use ya_lyceum_go_project_fin.Orchestrator.Repository.{Fetch, scan_rows, get_tasks_by_user_id}

module _ {F : Type 0} where
  -- No task of the list was created after the time.
  abbrev pub IsBelow : ℕ → List (Task F) → Type 0
  IsBelow n [] = Unit
  IsBelow n (t ∷ ts) = (t.created_at ≤ n) × IsBelow n ts

  abbrev pub IsNewestFirst : List (Task F) → Type 0
  IsNewestFirst [] = Unit
  IsNewestFirst (t ∷ ts) = IsBelow t.created_at ts × IsNewestFirst ts

  abbrev pub IsOwned : Uuid → List (Task F) → Type 0
  IsOwned k [] = Unit
  IsOwned k (t ∷ ts) = (t.user_id ≡ k) × IsOwned k ts

  IsBelow-mono : (n m : ℕ) (ts : List (Task F)) → n ≤ m → IsBelow n ts → IsBelow m ts
  IsBelow-mono n m [] le h = tt
  IsBelow-mono n m (t ∷ ts) le (h, hs) = (omega arith, IsBelow-mono n m ts le hs)

  insert_newest-IsBelow :
      (n : ℕ) (t : Task F) (ts : List (Task F))
      → t.created_at ≤ n
      → IsBelow n ts
      → IsBelow n (insert_newest t ts)
  unfolding insert_newest
  insert_newest-IsBelow n t [] le h = (le, tt)
  insert_newest-IsBelow n t (u ∷ us) le (h, hs) = ground (arith, insert_newest-IsBelow n t us le hs)

  insert_newest-IsNewestFirst :
      (t : Task F) (ts : List (Task F)) → IsNewestFirst ts → IsNewestFirst (insert_newest t ts)
  unfolding insert_newest
  insert_newest-IsNewestFirst t [] h = (tt, tt)
  insert_newest-IsNewestFirst t (u ∷ us) (below, h) = ground (
    arith,
    insert_newest-IsNewestFirst t us h,
    insert_newest-IsBelow u.created_at t us,
    IsBelow-mono u.created_at t.created_at us,
  )

  newest_first-IsNewestFirst : (ts : List (Task F)) → IsNewestFirst (newest_first ts)
  unfolding newest_first
  newest_first-IsNewestFirst [] = tt
  newest_first-IsNewestFirst (t ∷ ts) =
      insert_newest-IsNewestFirst t (newest_first ts) (newest_first-IsNewestFirst ts)

  insert_newest-perm : (t : Task F) (ts : List (Task F)) → Perm (insert_newest t ts) (t ∷ ts)
  unfolding insert_newest
  insert_newest-perm t [] = Perm.refl (t ∷ [])
  insert_newest-perm t (u ∷ us) = elim (Bool-cases (leb u.created_at t.created_at)) [
    | inl newer ↦ rw newer (Perm.refl (t ∷ u ∷ us))
    | inr older ↦ rw older (Perm.trans (Perm.cons u (insert_newest-perm t us)) (Perm.swap t u us))
  ]

  newest_first-perm : (ts : List (Task F)) → Perm (newest_first ts) ts
  unfolding newest_first
  newest_first-perm [] = Perm.refl []
  newest_first-perm (t ∷ ts) =
      Perm.trans (insert_newest-perm t (newest_first ts)) (Perm.cons t (newest_first-perm ts))

  of_user-IsOwned : (k : Uuid) (ts : List (Task F)) → IsOwned k (of_user k ts)
  unfolding of_user
  of_user-IsOwned k [] = tt
  of_user-IsOwned k (t ∷ ts) = ground (arith, of_user-IsOwned k ts)

  insert_newest-IsOwned :
      (k : Uuid) (t : Task F) (ts : List (Task F))
      → t.user_id ≡ k
      → IsOwned k ts
      → IsOwned k (insert_newest t ts)
  unfolding insert_newest
  insert_newest-IsOwned k t [] e h = (e, tt)
  insert_newest-IsOwned k t (u ∷ us) e (o, h) = ground (arith, insert_newest-IsOwned k t us e h)

  newest_first-IsOwned :
      (k : Uuid) (ts : List (Task F)) → IsOwned k ts → IsOwned k (newest_first ts)
  unfolding newest_first
  newest_first-IsOwned k [] h = tt
  newest_first-IsOwned k (t ∷ ts) (e, h) =
      insert_newest-IsOwned k t (newest_first ts) e (newest_first-IsOwned k ts h)

module _ {F : Type 0} (rpc : Rpc) where
  scan_rows-ok :
      (scan_err : ℕ → Option Error) (i : ℕ) (rows tasks ts : List (Task F))
      → scan_rows rpc scan_err i rows tasks ≡ ok ts
      → ts ≡ tasks ++ rows
  unfolding scan_rows
  scan_rows-ok scan_err i [] tasks ts h = rw append-nil (cc)
  scan_rows-ok scan_err i (t ∷ rows) tasks ts h = elim (Option-cases (scan_err i)) [
    | inl scanned ↦
        scan_rows-ok scan_err (suc i) rows (tasks ++ t ∷ []) ts (rw (scanned, scan_rows) at h)
        ∙ append_assoc tasks (t ∷ []) rows
    | inr (e, failed) ↦ cc (rw (failed, scan_rows) at h)
  ]

  get_tasks_by_user_id-rows :
      (f : Fetch) (k : Uuid) (db : Db F) (ts : List (Task F))
      → get_tasks_by_user_id rpc f k db ≡ ok ts
      → ts ≡ newest_first (of_user k db.tasks)
  unfolding get_tasks_by_user_id
  get_tasks_by_user_id-rows f k db ts h =
      ground (arith, scan_rows-ok f.scan_err 0 (newest_first (of_user k db.tasks)) [] ts)

  -- Where GetTasksByUserID returns no error, it returns every task of the user once, no task of anyone
  -- else, and the newest first; an error of the query, of a scan or at the end of the rows never gives
  -- a part of the list.
  pub get_tasks_by_user_id_lem :
      (f : Fetch) (k : Uuid) (db : Db F) (ts : List (Task F))
      → get_tasks_by_user_id rpc f k db ≡ ok ts
      → IsNewestFirst ts × Perm ts (of_user k db.tasks) × IsOwned k ts
  get_tasks_by_user_id_lem f k db ts h =
      let e = get_tasks_by_user_id-rows f k db ts h in
      rw e (
        newest_first-IsNewestFirst (of_user k db.tasks),
        newest_first-perm (of_user k db.tasks),
        newest_first-IsOwned k (of_user k db.tasks) (of_user-IsOwned k db.tasks),
      )
