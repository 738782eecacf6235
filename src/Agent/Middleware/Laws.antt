-- ===== src/Agent/Middleware/Laws.antt =====
-- Which requests the middleware lets pass, and that a logged-in user's do.
use Prim.Native.String as S
use text.Mathlib.TextLemmas.{append_assoc}
use ya_lyceum_go_project_fin.Prelude.{
  ℕ, ◌≤◌, ◌<◌, String, ◌≡◌, ◌≢◌, ◌↔◌, refl, sym, ap, ◌∙◌, none, true, List, [], ◌∷◌, eq_iff, arith,
}
use ya_lyceum_go_project_fin.Prelude.Texts.{split, lowers_to, HasNoSpace, split_two}
use ya_lyceum_go_project_fin.Errors.{ok}
use ya_lyceum_go_project_fin.Grpc.{Rpc}
use ya_lyceum_go_project_fin.Database.{Db, Call}
use ya_lyceum_go_project_fin.Agent.Tokens.{Jwt, Manager, generate, verify, add_duration}
use ya_lyceum_go_project_fin.Agent.Auth.{AuthService, register, log_in}
use ya_lyceum_go_project_fin.Agent.Auth.Laws.{log_in-register}
use ya_lyceum_go_project_fin.Agent.Middleware.{passed, bearer, jwt_auth}

module _ (lib : Jwt) (rpc : Rpc) (manager : Manager) where
  -- A header of two parts, the first `bearer` in any case and the second a token of the user.
  pub record IsBearer (now : ℕ) (auth_header user_id : String) : Type 0 where
    pub scheme : String
    pub token : String
    pub parts : split auth_header ≡ scheme ∷ token ∷ []
    pub is_bearer : lowers_to scheme "bearer" ≡ true
    pub not_empty : token ≢ ""
    pub verified_token : verify lib rpc manager now token ≡ ok user_id

  bearer-passed :
      (now : ℕ) (parts : List String) (user_id : String)
      → bearer lib rpc manager now parts ≡ passed user_id
      → (scheme : String) × (token : String) × (parts ≡ scheme ∷ token ∷ [])
        × (lowers_to scheme "bearer" ≡ true)
        × (token ≢ "")
        × (verify lib rpc manager now token ≡ ok user_id)
  unfolding bearer
  bearer-passed now [] user_id h = cc
  bearer-passed now (scheme ∷ []) user_id h = cc
  bearer-passed now (scheme ∷ token ∷ []) user_id h =
      (scheme, token, refl, ground arith, ground (arith, eq_iff token ""), ground arith)
  bearer-passed now (scheme ∷ token ∷ part ∷ parts) user_id h = cc

  passed-bearer :
      (now : ℕ) (scheme token user_id : String)
      → lowers_to scheme "bearer" ≡ true
      → token ≢ ""
      → verify lib rpc manager now token ≡ ok user_id
      → bearer lib rpc manager now (scheme ∷ token ∷ []) ≡ passed user_id
  unfolding bearer
  passed-bearer now scheme token user_id is_bearer filled verified_token =
      ground (arith, eq_iff token "")

  jwt_auth-filled :
      (now : ℕ) (auth_header : String)
      → (auth_header ≡ "" → split auth_header ≡ "" ∷ [])
      → ((u : String)
          → jwt_auth lib rpc manager now auth_header ≡ passed u
          → bearer lib rpc manager now (split auth_header) ≡ passed u)
        × ((u : String)
            → bearer lib rpc manager now (split auth_header) ≡ passed u
            → auth_header ≢ ""
            → jwt_auth lib rpc manager now auth_header ≡ passed u)
  unfolding jwt_auth
  jwt_auth-filled now auth_header h =
      (λ u e. ground (arith, eq_iff auth_header ""), λ u e n. ground (arith, eq_iff auth_header ""))

  split-empty : (s : String) → s ≡ "" → split s ≡ "" ∷ []
  unfolding split
  split-empty s e = ap split e

  two_parts : (s a b : String) → split s ≡ a ∷ b ∷ [] → s ≢ ""
  two_parts s a b h e = cc (sym h ∙ split-empty s e)

  -- The middleware lets a request pass for a user exactly if its header has two parts at one space, the
  -- first is `bearer` in any case, and the second is a non-empty token that is verified as that user's.
  pub jwt_auth_iff :
      (now : ℕ) (auth_header user_id : String)
      → (jwt_auth lib rpc manager now auth_header ≡ passed user_id)
        ↔ IsBearer now auth_header user_id
  jwt_auth_iff now auth_header user_id =
      let (to, from) = jwt_auth-filled now auth_header (split-empty auth_header) in
      (
        λ h.
            let (scheme, token, parts, is_bearer, filled, verified_token) =
              bearer-passed now (split auth_header) user_id (to user_id h) in
            record {
              scheme = scheme;
              token = token;
              parts = parts;
              is_bearer = is_bearer;
              not_empty = filled;
              verified_token = verified_token;
            },
        λ b.
            from user_id
              (ap (bearer lib rpc manager now) b.parts
                ∙ passed-bearer now b.scheme b.token user_id b.is_bearer b.not_empty
                    b.verified_token)
              (two_parts auth_header b.scheme b.token b.parts),
      )

bearer_lowers : lowers_to "Bearer" "bearer" ≡ true
unfolding lowers_to
bearer_lowers = refl

bearer_plain : HasNoSpace "Bearer"
bearer_plain = ground arith

split-bearer :
    (token : String) → HasNoSpace token → split (S.◌++◌ "Bearer " token) ≡ "Bearer" ∷ token ∷ []
split-bearer token h =
    ap split (append_assoc "Bearer" " " token) ∙ split_two "Bearer" token bearer_plain h

pub bearer-jwt_auth :
    (lib : Jwt) (rpc : Rpc) (m : Manager) (now : ℕ) (user_id token : String)
    → verify lib rpc m now token ≡ ok user_id
    → HasNoSpace token
    → token ≢ ""
    → jwt_auth lib rpc m now (S.◌++◌ "Bearer " token) ≡ passed user_id
bearer-jwt_auth lib rpc m now user_id token verified_token plain filled =
    (jwt_auth_iff lib rpc m now (S.◌++◌ "Bearer " token) user_id).1 (record {
      scheme = "Bearer";
      token = token;
      parts = split-bearer token plain;
      is_bearer = bearer_lowers;
      not_empty = filled;
      verified_token = verified_token;
    })

module _ {F : Type 0} (s : AuthService) where
  -- From the registration to a request: whoever has registered logs in, and a request with `Bearer` and
  -- the token that this gives passes as that user until the token expires, if the token has no space and
  -- is not empty.
  pub jwt_auth-log_in :
      (salt : String) (c c' : Call) (now now' later : ℕ) (login password : String) (db db' : Db F)
      (user_id token : String)
      → register s salt c login password db ≡ (db', ok user_id)
      → c'.fault ≡ none
      → generate s.jwt s.rpc s.jwt_manager now now' user_id ≡ ok token
      → s.jwt.numeric_date now' ≤ later
      → later < s.jwt.numeric_date (add_duration now s.jwt_manager.token_ttl)
      → HasNoSpace token
      → token ≢ ""
      → (log_in s c' now now' login password db' ≡ ok (user_id, token))
        × (jwt_auth s.jwt s.rpc s.jwt_manager later (S.◌++◌ "Bearer " token) ≡ passed user_id)
  jwt_auth-log_in salt c c' now now' later login password db db' user_id token h calm signed issued
        fresh plain filled =
      let (entered, verified_token) =
        log_in-register s salt c c' now now' later login password db db' user_id token h calm signed
          issued fresh in
      (
        entered,
        bearer-jwt_auth s.jwt s.rpc s.jwt_manager later user_id token verified_token plain filled,
      )
