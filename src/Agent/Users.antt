-- ===== src/Agent/Users.antt =====
-- internal/agent/repository/user_postgres.go, over the table users.
pub mod Rows
use ya_lyceum_go_project_fin.Prelude.{
  String, Bool, true, false, ◌||◌, ◌&&◌, Option, none, some, List, [], ◌∷◌, ◌++◌, ltb, str_eq,
  if◌then◌else◌,
}
use ya_lyceum_go_project_fin.Prelude.Texts.{contains, characters}
use ya_lyceum_go_project_fin.Errors.{
  user_not_found, login_already_exists, user_database, Error, sentinel, new, wrap, wrap_two, status,
  foreign, pg_error, no_rows, is_foreign, text, sprint, Result, ok, err, map_err,
}
use ya_lyceum_go_project_fin.Grpc.{Rpc, message}
use ya_lyceum_go_project_fin.Database.{Uuid, User, Db, Call, exec, has_user}

abbrev pub pg_unique_violation_code : String
pg_unique_violation_code = "23505"

-- `errors.As(err, &pgErr)`: the code and the constraint of the first `*pgconn.PgError`.
as_pg_error : Error → Option (String × String)
as_pg_error (sentinel _) = none
as_pg_error (new _) = none
as_pg_error (wrap _ e) = as_pg_error e
as_pg_error (wrap_two _ e f) =
    let second = as_pg_error f in elim (as_pg_error e) [ none ↦ second | some p ↦ some p ]
as_pg_error (status _ _) = none
as_pg_error (foreign _ _) = none
as_pg_error (pg_error code constraint _) = some (code, constraint)

abbrev is_login_violation : Option (String × String) → Bool
unfolding contains
is_login_violation none = false
is_login_violation (some (code, constraint)) =
    str_eq code pg_unique_violation_code && contains constraint "login"

-- Whether an error of the insertion counts as a login that is taken.
unfoldable pub is_login_taken : Error → Bool
unfolding as_pg_error is_login_violation
is_login_taken e = is_login_violation (as_pg_error e)

creation_error : Rpc → Error → Error
unfolding is_login_taken message
creation_error rpc e =
    if is_login_taken e
    then sentinel login_already_exists
    else wrap
        (sprint (text user_database ∷ ": не удалось вставить пользователя: " ∷ message rpc e ∷ []))
        (sentinel user_database)

query_error : Rpc → Error → Error
unfolding is_foreign message
query_error rpc e =
    if is_foreign no_rows e
    then sentinel user_not_found
    else wrap
        (sprint (text user_database ∷ ": не удалось запросить пользователя: " ∷ message rpc e ∷ []))
        (sentinel user_database)

abbrev pub find_login : String → List User → Option User
find_login login [] = none
find_login login (u ∷ us) = if str_eq u.login login then some u else find_login login us

abbrev pub has_login : String → List User → Bool
has_login login [] = false
has_login login (u ∷ us) = str_eq u.login login || has_login login us

abbrev pub new_user : Call → String → String → User
new_user c login password_hash = record {
  id = c.fresh_id;
  login = login;
  password_hash = password_hash;
  created_at = c.now;
}

module _ {F : Type 0} where
  -- INSERT INTO users (login, password_hash) VALUES ($1, $2) RETURNING id, where login is
  -- VARCHAR(255) UNIQUE.
  insert_user : Call → String → String → Db F → Db F × Result Uuid
  unfolding exec characters
  insert_user c login password_hash db = exec c db (
      if has_login login db.users || has_user c.fresh_id db.users || ltb 255 (characters login)
      then (db, err c.violation)
      else (record db { users = db.users ++ new_user c login password_hash ∷ [] }, ok c.fresh_id))

  -- SELECT id, login, password_hash, created_at FROM users WHERE login = $1
  select_user : Call → String → Db F → Result User
  select_user c login db = elim c.fault [
    | none ↦ elim (find_login login db.users) [
      | none ↦ err (foreign no_rows c.no_rows_text)
      | some u ↦ ok u
    ]
    | some f ↦ err f.error
  ]

  unfoldable pub create_user : Rpc → Call → String → String → Db F → Db F × Result Uuid
  unfolding insert_user creation_error
  create_user rpc c login password_hash db =
      let (db', r) = insert_user c login password_hash db in (db', map_err (creation_error rpc) r)

  unfoldable pub get_user_by_login : Rpc → Call → String → Db F → Result User
  unfolding select_user query_error
  get_user_by_login rpc c login db = map_err (query_error rpc) (select_user c login db)
