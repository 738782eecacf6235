-- ===== src/Agent/Auth/Laws.antt =====
-- Registration and the login after it: who gets in.
use ya_lyceum_go_project_fin.Prelude.{
  ℕ, ◌≤◌, ◌<◌, String, ◌≡◌, inl, inr, refl, sym, ap, ◌∙◌, subst, true, false, none, some, ltb, len,
  eq_iff, arith, [], ◌∷◌, ◌++◌, Bool-cases,
}
use ya_lyceum_go_project_fin.Errors.{login_already_exists, sentinel, Result, ok, err, Result-cases}
use ya_lyceum_go_project_fin.Database.{Uuid, User, Db, Call}
use ya_lyceum_go_project_fin.Agent.Hasher.{hash, compare, compare-hash}
use ya_lyceum_go_project_fin.Agent.Tokens.{generate, verify, verify-generate, add_duration}
use ya_lyceum_go_project_fin.Agent.Users.{
  is_login_taken, find_login, has_login, new_user, create_user, get_user_by_login,
}
use ya_lyceum_go_project_fin.Agent.Users.Rows.{find_login-append, create_user-ok, create_user_taken}
use ya_lyceum_go_project_fin.Agent.Auth.Form.{IsLogin, matches_login-IsLogin}
use ya_lyceum_go_project_fin.Agent.Auth.{
  AuthService, matches_login, registered, register, with_user, with_token, log_in,
}

module _ (s : AuthService) where
  pub with_token-named :
      (now now' : ℕ) (u : User) (user_id token : String)
      → user_id ≡ s.jwt.print_uuid u.id
      → generate s.jwt s.rpc s.jwt_manager now now' user_id ≡ ok token
      → with_token s now now' u ≡ ok (user_id, token)
  unfolding with_token
  with_token-named now now' u user_id token named signed =
      subst (λ n. with_token s now now' u ≡ ok (n, token)) (sym named)
        (rw (
          subst (λ n. generate s.jwt s.rpc s.jwt_manager now now' n ≡ ok token) named signed,
          with_token,
        ))

module _ {F : Type 0} (s : AuthService) where
  -- What a registration without an error has brought about.
  pub record IsRegistered (salt : String) (c : Call) (login password : String) (db db' : Db F)
      (user_id : String) : Type 0 where
    pub password_hash : String
    pub well_formed : IsLogin login
    pub long_enough : 6 ≤ len password
    pub hashed : hash s.bcrypt s.rpc s.hasher salt password ≡ ok password_hash
    pub opens : compare s.bcrypt s.rpc password_hash password ≡ none
    pub row : User
    pub columns : row ≡ record {
      id = c.fresh_id;
      login = login;
      password_hash = password_hash;
      created_at = c.now;
    }
    pub found : find_login login db'.users ≡ some row
    pub appended : db' ≡ record db { users = db.users ++ row ∷ [] }
    pub free : has_login login db.users ≡ false
    pub named : user_id ≡ s.jwt.print_uuid c.fresh_id

  registered-ok :
      (r : Db F × Result Uuid) (db' : Db F) (user_id : String)
      → registered s r ≡ (db', ok user_id)
      → (id : Uuid) × (r ≡ (db', ok id)) × (user_id ≡ s.jwt.print_uuid id)
  unfolding registered
  registered-ok (db, ok id) db' user_id h = (id, ground arith, ground arith)
  registered-ok (db, err e) db' user_id h = cc

  register-hashed :
      (salt : String) (c : Call) (login password password_hash : String) (db : Db F)
      → matches_login login ≡ true
      → ltb (len password) 6 ≡ false
      → hash s.bcrypt s.rpc s.hasher salt password ≡ ok password_hash
      → register s salt c login password db
        ≡ registered s (create_user s.rpc c login password_hash db)
  unfolding register
  register-hashed salt c login password password_hash db form long hashed =
      rw (form, long, hashed, register)

  created-IsRegistered :
      (salt : String) (c : Call) (login password password_hash : String) (db db' : Db F) (id : Uuid)
      → matches_login login ≡ true
      → ltb (len password) 6 ≡ false
      → hash s.bcrypt s.rpc s.hasher salt password ≡ ok password_hash
      → create_user s.rpc c login password_hash db ≡ (db', ok id)
      → IsRegistered salt c login password db db' (s.jwt.print_uuid id)
  created-IsRegistered salt c login password password_hash db db' id form long hashed made =
      let (_, free, _, is_fresh, grown) =
        create_user-ok s.rpc c login password_hash id db db' made in
      record {
        password_hash = password_hash;
        well_formed = matches_login-IsLogin login form;
        long_enough = ground arith;
        hashed = hashed;
        opens = compare-hash s.bcrypt s.rpc s.hasher salt password password_hash hashed;
        row = new_user c login password_hash;
        columns = refl;
        found = ground (
          arith,
          find_login-append login db.users (new_user c login password_hash ∷ []),
          eq_iff login login,
        );
        appended = grown;
        free = free;
        named = ap s.jwt.print_uuid is_fresh;
      }

  -- Whoever is registered has a login of 3 to 30 characters, all of them letters of ASCII, digits or
  -- `_`, and a password of 6 bytes or more. The table has one row more than before, with the login, a
  -- hash that bcrypt made of the password and that the password opens, and the id that is answered;
  -- it is the row that is found under the login, and no user had that login before. The rest of the
  -- database is as it was.
  pub register-IsRegistered :
      (salt : String) (c : Call) (login password : String) (db db' : Db F) (user_id : String)
      → register s salt c login password db ≡ (db', ok user_id)
      → IsRegistered salt c login password db db' user_id
  unfolding register
  register-IsRegistered salt c login password db db' user_id h =
      elim (Bool-cases (matches_login login)) [
        | inr bad ↦ cc (rw (bad, register) at h)
        | inl form ↦ elim (Bool-cases (ltb (len password) 6)) [
          | inl short ↦ cc (rw (form, short, register) at h)
          | inr long ↦ elim (Result-cases (hash s.bcrypt s.rpc s.hasher salt password)) [
            | inr (e, bad) ↦ cc (rw (form, long, bad, register) at h)
            | inl (password_hash, hashed) ↦
                let same =
                  register-hashed salt c login password password_hash db form long hashed in
                let (id, made, named) = registered-ok _ db' user_id (sym same ∙ h) in
                subst (IsRegistered salt c login password db db') (sym named) (
                  created-IsRegistered salt c login password password_hash db db' id form long
                    hashed made)
          ]
        ]
      ]

  log_in-found :
      (c : Call) (now now' : ℕ) (login password : String) (db : Db F) (u : User)
      → c.fault ≡ none
      → find_login login db.users ≡ some u
      → compare s.bcrypt s.rpc u.password_hash password ≡ none
      → log_in s c now now' login password db ≡ with_token s now now' u
  unfolding log_in with_user get_user_by_login
  log_in-found c now now' login password db u calm found fits = ground arith

  -- Whoever has registered logs in with that login and password, if the look-up meets no fault and a
  -- token is signed: the answer is the id that the registration gave and a token that is verified as
  -- that id for its lifetime.
  pub log_in-register :
      (salt : String) (c c' : Call) (now now' later : ℕ) (login password : String) (db db' : Db F)
      (user_id token : String)
      → register s salt c login password db ≡ (db', ok user_id)
      → c'.fault ≡ none
      → generate s.jwt s.rpc s.jwt_manager now now' user_id ≡ ok token
      → s.jwt.numeric_date now' ≤ later
      → later < s.jwt.numeric_date (add_duration now s.jwt_manager.token_ttl)
      → (log_in s c' now now' login password db' ≡ ok (user_id, token))
        × (verify s.jwt s.rpc s.jwt_manager later token ≡ ok user_id)
  log_in-register salt c c' now now' later login password db db' user_id token h calm signed issued
        fresh =
      let r = register-IsRegistered salt c login password db db' user_id h in
      let u = new_user c login r.password_hash in
      (
        log_in-found c' now now' login password db' u calm (r.found ∙ ap some r.columns) r.opens
            ∙ with_token-named s now now' u user_id token r.named signed,
        verify-generate s.jwt s.rpc s.jwt_manager s.jwt_manager now now' later user_id token signed
            refl issued fresh,
      )

  -- A login that is taken is refused as such, with the table as it was, if the insertion meets no fault
  -- and the password gets a hash.
  pub register_taken :
      (salt : String) (c : Call) (login password password_hash : String) (db : Db F)
      → matches_login login ≡ true
      → 6 ≤ len password
      → hash s.bcrypt s.rpc s.hasher salt password ≡ ok password_hash
      → c.fault ≡ none
      → is_login_taken c.violation ≡ true
      → has_login login db.users ≡ true
      → register s salt c login password db ≡ (db, err (sentinel login_already_exists))
  unfolding registered
  register_taken salt c login password password_hash db form long hashed calm violation taken =
      register-hashed salt c login password password_hash db form (ground arith) hashed
      ∙ (rw (create_user_taken s.rpc c login password_hash db calm violation taken))
