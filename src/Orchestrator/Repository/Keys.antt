-- ===== src/Orchestrator/Repository/Keys.antt =====
-- The keys of the table of tasks: the methods keep the ids distinct and every task owned by a user.
use ya_lyceum_go_project_fin.Prelude.{
  String, ◌≡◌, inl, inr, refl, subst, sym, true, List, [], ◌∷◌, ◌++◌, arith, Option-cases,
  Bool-cases,
}
use ya_lyceum_go_project_fin.Grpc.{Rpc}
use ya_lyceum_go_project_fin.Database.{Uuid, User, Task, Db, Call, has_user, update_rows}
use ya_lyceum_go_project_fin.Database.Tables.{
  HasUniqueKeys, update_rows-HasUniqueKeys, append-HasUniqueKeys,
}
use ya_lyceum_go_project_fin.Orchestrator.Repository.{create_task}
use ya_lyceum_go_project_fin.Orchestrator.Repository.Rows.{
  new_row, Write, to_status, to_result, to_error, written, run, written-id, run-no_fault, run_fault,
  create_task-cases,
}

module _ {F : Type 0} where
  -- FOREIGN KEY (user_id) REFERENCES users (id)
  abbrev pub HasOwners : List User → List (Task F) → Type 0
  HasOwners users [] = Unit
  HasOwners users (t ∷ ts) = (has_user t.user_id users ≡ true) × HasOwners users ts

  -- PRIMARY KEY and FOREIGN KEY of the table tasks.
  abbrev pub IsKeyed : Db F → Type 0
  IsKeyed db = HasUniqueKeys db.tasks × HasOwners db.users db.tasks

  pub append-HasOwners :
      (users : List User) (ts : List (Task F)) (t : Task F)
      → HasOwners users ts
      → has_user t.user_id users ≡ true
      → HasOwners users (ts ++ t ∷ [])
  append-HasOwners users [] t h k = (k, tt)
  append-HasOwners users (s ∷ ts) t (o, h) k = (o, append-HasOwners users ts t h k)

  update_rows-HasOwners :
      (users : List User) (id : Uuid) (f : Task F → Task F) (ts : List (Task F))
      → ((t : Task F) → (f t).user_id ≡ t.user_id)
      → HasOwners users ts
      → HasOwners users (update_rows id f ts)
  unfolding update_rows
  update_rows-HasOwners users id f [] keeps h = tt
  update_rows-HasOwners users id f (t ∷ ts) keeps (o, h) =
      (ground (arith, keeps t), update_rows-HasOwners users id f ts keeps h)

  written-user_id : (c : Call) (w : Write F) (t : Task F) → (written c w t).user_id ≡ t.user_id
  written-user_id c (to_status s) t = refl
  written-user_id c (to_result v) t = refl
  written-user_id c (to_error m) t = refl

  pub update-IsKeyed :
      (rpc : Rpc) (c : Call) (id : Uuid) (w : Write F) (db : Db F)
      → IsKeyed db
      → IsKeyed (record db { tasks = update_rows id (written c w) db.tasks })
  update-IsKeyed rpc c id w db (u, o) = (
    update_rows-HasUniqueKeys id (written c w) db.tasks (written-id rpc c w) u,
    update_rows-HasOwners db.users id (written c w) db.tasks (written-user_id c w) o,
  )

  -- Creating a task keeps the ids distinct and the tasks owned, whether it succeeds, violates a
  -- constraint or meets a fault.
  pub create_task-IsKeyed :
      (rpc : Rpc) (c : Call) (user_id : Uuid) (expression : String) (db : Db F)
      → IsKeyed db
      → IsKeyed (create_task rpc c user_id expression db).0
  create_task-IsKeyed rpc c user_id expression db (u, o) =
      elim (create_task-cases rpc c user_id expression db) [
        | inl same ↦ subst IsKeyed (sym same) (u, o)
        | inr (fresh, owner, grown) ↦ subst IsKeyed (sym grown) (
          append-HasUniqueKeys db.tasks (new_row c user_id expression) u fresh,
          append-HasOwners db.users db.tasks (new_row c user_id expression) o owner,
        )
      ]

  -- Each of the three updates keeps the ids distinct and the tasks owned, whether it succeeds, finds no
  -- task or meets a fault.
  pub run-IsKeyed :
      (rpc : Rpc) (c : Call) (id : Uuid) (w : Write F) (db : Db F)
      → IsKeyed db
      → IsKeyed (run rpc c id w db).0
  run-IsKeyed rpc c id w db keyed = elim (Option-cases c.fault) [
    | inl calm ↦ rw (run-no_fault rpc c id w db calm) (update-IsKeyed rpc c id w db keyed)
    | inr (f, faulty) ↦
        let (e, _, _, after) = run_fault rpc c id w db f faulty in
        elim (Bool-cases f.applied) [
          | inl applied ↦ rw (after, applied) (update-IsKeyed rpc c id w db keyed)
          | inr lost ↦ rw (after, lost) keyed
        ]
  ]
