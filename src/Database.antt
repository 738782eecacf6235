-- ===== src/Database.antt =====
-- The tables of migrations/000001_init.sql and the statements that the two repositories
-- send to them. A row is the Go struct that the repositories scan it into.
pub mod Tables
pub mod Sample
use ya_lyceum_go_project_fin.Prelude.{
  ℕ, ◌+◌, String, Bool, true, false, ◌||◌, not, Option, none, some, List, [], ◌∷◌, ◌++◌, ◌==◌, leb,
  if◌then◌else◌,
}
use ya_lyceum_go_project_fin.Errors.{Error, foreign, no_rows, Result, ok, err}

-- `uuid.UUID`, as the number that its 16 bytes write.
abbrev pub Uuid : Type 0
Uuid = ℕ

-- Times are in nanoseconds.
pub record User : Type 0 where
  pub id : Uuid
  pub login : String
  pub password_hash : String
  pub created_at : ℕ

pub record Task (F : Type 0) : Type 0 where
  pub id : Uuid
  pub user_id : Uuid
  pub expression : String
  pub status : String
  pub result : Option F
  pub error_message : Option String
  pub created_at : ℕ
  pub updated_at : ℕ

pub record Db (F : Type 0) : Type 0 where
  pub users : List User
  pub tasks : List (Task F)

-- A statement that ends in an error that the table did not give: the connection, the context or the
-- server failed. The statement may have taken effect all the same.
pub record Fault : Type 0 where
  pub error : Error
  pub applied : Bool

-- What a statement is given by its surroundings: a fault, `uuid_generate_v4()`, `NOW()`, the error of
-- a violated constraint, and the text of `pgx.ErrNoRows`.
pub record Call : Type 0 where
  pub fault : Option Fault
  pub fresh_id : Uuid
  pub now : ℕ
  pub violation : Error
  pub no_rows_text : String

-- The end of a statement that made `done`, with its result, out of `db`.
unfoldable pub exec : {D A : Type 0} → Call → D → D × Result A → D × Result A
exec c db (done, r) = elim c.fault [
  | none ↦ (done, r)
  | some f ↦ (if f.applied then done else db, err f.error)
]

abbrev pub has_user : Uuid → List User → Bool
has_user k [] = false
has_user k (u ∷ us) = u.id == k || has_user k us

module _ {F : Type 0} where
  -- The row with a primary key.
  abbrev pub find_task : Uuid → List (Task F) → Option (Task F)
  find_task k [] = none
  find_task k (t ∷ ts) = if t.id == k then some t else find_task k ts

  abbrev pub has_task : Uuid → List (Task F) → Bool
  has_task k [] = false
  has_task k (t ∷ ts) = t.id == k || has_task k ts

  -- INSERT INTO tasks (user_id, expression, status) VALUES (…) RETURNING id
  unfoldable pub insert_task : Call → Uuid → String → String → Db F → Db F × Result Uuid
  unfolding exec
  insert_task c user_id expression status db = exec c db (
      if not (has_user user_id db.users) || has_task c.fresh_id db.tasks
      then (db, err c.violation)
      else (
        record db {
          tasks =
              db.tasks
              ++ record {
                id = c.fresh_id;
                user_id = user_id;
                expression = expression;
                status = status;
                result = none;
                error_message = none;
                created_at = c.now;
                updated_at = c.now;
              }
                ∷ [];
        },
        ok c.fresh_id,
      ))

  -- UPDATE tasks SET … WHERE id = …
  unfoldable pub update_rows : Uuid → (Task F → Task F) → List (Task F) → List (Task F)
  update_rows k f [] = []
  update_rows k f (t ∷ ts) = (if t.id == k then f t else t) ∷ update_rows k f ts

  unfoldable pub count_rows : Uuid → List (Task F) → ℕ
  count_rows k [] = 0
  count_rows k (t ∷ ts) = (if t.id == k then 1 else 0) + count_rows k ts

  -- The result is `RowsAffected()`.
  unfoldable pub update_task : Call → Uuid → (Task F → Task F) → Db F → Db F × Result ℕ
  unfolding exec update_rows count_rows
  update_task c k f db =
      exec c db (record db { tasks = update_rows k f db.tasks }, ok (count_rows k db.tasks))

  -- SELECT … FROM tasks WHERE id = $1
  unfoldable pub select_task : Call → Uuid → Db F → Result (Task F)
  select_task c k db = elim c.fault [
    | none ↦ elim (find_task k db.tasks) [
      | none ↦ err (foreign no_rows c.no_rows_text)
      | some t ↦ ok t
    ]
    | some f ↦ err f.error
  ]

  -- SELECT … FROM tasks WHERE user_id = $1 ORDER BY created_at DESC. Rows that were created at one
  -- time may come in any order; here they keep that of the table.
  unfoldable pub insert_newest : Task F → List (Task F) → List (Task F)
  insert_newest t [] = t ∷ []
  insert_newest t (u ∷ us) =
      let rest = insert_newest t us in
      if leb u.created_at t.created_at then t ∷ u ∷ us else u ∷ rest

  unfoldable pub newest_first : List (Task F) → List (Task F)
  unfolding insert_newest
  newest_first [] = []
  newest_first (t ∷ ts) = insert_newest t (newest_first ts)

  unfoldable pub of_user : Uuid → List (Task F) → List (Task F)
  of_user k [] = []
  of_user k (t ∷ ts) = let rest = of_user k ts in if t.user_id == k then t ∷ rest else rest
