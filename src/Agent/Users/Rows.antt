-- ===== src/Agent/Users/Rows.antt =====
-- What the methods of internal/agent/repository/user_postgres.go do to the users.
use ya_lyceum_go_project_fin.Prelude.{
  String, ◌≡◌, ◌≢◌, ◌⊎◌, inl, inr, refl, sym, subst, true, false, none, some, List, [], ◌∷◌, ◌++◌,
  eq_iff, arith,
}
use ya_lyceum_go_project_fin.Errors.{login_already_exists, user_not_found, sentinel, ok, err}
use ya_lyceum_go_project_fin.Grpc.{Rpc}
use ya_lyceum_go_project_fin.Database.{Uuid, User, Db, Call, has_user}
use ya_lyceum_go_project_fin.Agent.Users.{
  is_login_taken, find_login, has_login, new_user, create_user, get_user_by_login,
}

pub find_login-append :
    (login : String) (us vs : List User)
    → has_login login us ≡ false
    → find_login login (us ++ vs) ≡ find_login login vs
find_login-append login [] vs h = refl
find_login-append login (u ∷ us) vs h = ground (arith, find_login-append login us vs)

pub find_login-eq_none :
    (login : String) (us : List User) → has_login login us ≡ false → find_login login us ≡ none
find_login-eq_none login [] h = refl
find_login-eq_none login (u ∷ us) h = ground (arith, find_login-eq_none login us)

pub find_login-login :
    (login : String) (us : List User) (u : User) → find_login login us ≡ some u → u.login ≡ login
find_login-login login [] u h = cc
find_login-login login (v ∷ us) u h =
    ground (arith, find_login-login login us u, eq_iff v.login login)

-- No two users have one login.
abbrev pub HasUniqueLogins : List User → Type 0
HasUniqueLogins [] = Unit
HasUniqueLogins (u ∷ us) = (has_login u.login us ≡ false) × HasUniqueLogins us

has_login-append :
    (login : String) (us : List User) (u : User)
    → has_login login us ≡ false
    → u.login ≢ login
    → has_login login (us ++ u ∷ []) ≡ false
has_login-append login [] u h n = ground (arith, eq_iff u.login login)
has_login-append login (v ∷ us) u h n = ground (arith, has_login-append login us u)

has_login-distinct :
    (login : String) (u : User) (us : List User)
    → has_login login (u ∷ us) ≡ false
    → login ≢ u.login
has_login-distinct login u us h e = ground (arith, eq_iff u.login login)

append-HasUniqueLogins :
    (us : List User) (u : User)
    → HasUniqueLogins us
    → has_login u.login us ≡ false
    → HasUniqueLogins (us ++ u ∷ [])
append-HasUniqueLogins [] u h n = (refl, tt)
append-HasUniqueLogins (v ∷ us) u (fresh, h) n = (
  has_login-append v.login us u fresh (has_login-distinct u.login v us n),
  append-HasUniqueLogins us u h (ground arith),
)

module _ {F : Type 0} (rpc : Rpc) (c : Call) where
  pub create_user-ok :
      (login password_hash : String) (id : Uuid) (db db' : Db F)
      → create_user rpc c login password_hash db ≡ (db', ok id)
      → (c.fault ≡ none)
        × (has_login login db.users ≡ false)
        × (has_user c.fresh_id db.users ≡ false)
        × (id ≡ c.fresh_id)
        × (db' ≡ record db { users = db.users ++ new_user c login password_hash ∷ [] })
  unfolding create_user
  create_user-ok login password_hash id db db' h =
      (ground arith, ground arith, ground arith, ground arith, ground arith)

  pub create_user-cases :
      (login password_hash : String) (db : Db F)
      → ((create_user rpc c login password_hash db).0 ≡ db)
        ⊎ ((has_login login db.users ≡ false)
            × ((create_user rpc c login password_hash db).0
                ≡ record db { users = db.users ++ new_user c login password_hash ∷ [] }))
  unfolding create_user
  create_user-cases login password_hash db = ground arith

  -- CreateUser keeps the logins distinct, whether it succeeds, violates a constraint or meets a fault.
  pub create_user-HasUniqueLogins :
      (login password_hash : String) (db : Db F)
      → HasUniqueLogins db.users
      → HasUniqueLogins (create_user rpc c login password_hash db).0.users
  create_user-HasUniqueLogins login password_hash db unique =
      elim (create_user-cases login password_hash db) [
        | inl same ↦ subst (λ d. HasUniqueLogins d.users) (sym same) unique
        | inr (fresh, grown) ↦
            subst (λ d. HasUniqueLogins d.users) (sym grown)
              (append-HasUniqueLogins db.users (new_user c login password_hash) unique fresh)
      ]

  -- A user that CreateUser has stored is found by the login, with the hash and the id; before, no user
  -- had that login.
  pub get_user_by_login-create_user :
      (c' : Call) (login password_hash : String) (id : Uuid) (db db' : Db F)
      → create_user rpc c login password_hash db ≡ (db', ok id)
      → c'.fault ≡ none
      → (get_user_by_login rpc c' login db' ≡ ok (new_user c login password_hash))
        × (get_user_by_login rpc c' login db ≡ err (sentinel user_not_found))
        × (id ≡ c.fresh_id)
  unfolding get_user_by_login
  get_user_by_login-create_user c' login password_hash id db db' h calm =
      let (no_fault, free, fresh, is_fresh, grown) =
        create_user-ok login password_hash id db db' h in
      (
        ground (
          arith,
          find_login-append login db.users (new_user c login password_hash ∷ []),
          eq_iff login login,
        ),
        ground (arith, find_login-eq_none login db.users),
        is_fresh,
      )

  -- A login that is taken is reported as ErrLoginAlreadyExists and changes nothing, if the insertion
  -- meets no fault and the server's error is that of a unique constraint whose name holds `login`.
  pub create_user_taken :
      (login password_hash : String) (db : Db F)
      → c.fault ≡ none
      → is_login_taken c.violation ≡ true
      → has_login login db.users ≡ true
      → create_user rpc c login password_hash db ≡ (db, err (sentinel login_already_exists))
  unfolding create_user
  create_user_taken login password_hash db calm violation taken = ground arith
