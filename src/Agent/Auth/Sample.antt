-- ===== src/Agent/Auth/Sample.antt =====
-- Stand-ins for bcrypt and the JWT library, and a service on them, for tests and witnesses.
use Prim.Native.String as S
use ya_lyceum_go_project_fin.Prelude.{
  String, ◌≡◌, Option, true, none, some, str_eq, eq_iff, arith, Bool, ◌&&◌, ◌==◌, if◌then◌else◌,
}
use ya_lyceum_go_project_fin.Errors.{
  mismatched_hash_and_password, Error, new, foreign, pg_error, Result, ok, err,
}
use ya_lyceum_go_project_fin.Grpc.Sample.{sample_rpc}
use ya_lyceum_go_project_fin.Float64.{ℤ, pos}
use ya_lyceum_go_project_fin.Database.{Db, Call}
use ya_lyceum_go_project_fin.Database.Sample.{
  working, print_dashes, parsed_length, count-print_dashes,
}
use ya_lyceum_go_project_fin.Agent.Hasher.{Bcrypt, hash, compare}
use ya_lyceum_go_project_fin.Agent.Tokens.{Claims, hmac, Token, Jwt, generate, verify}
use ya_lyceum_go_project_fin.Prelude.{refl}
use ya_lyceum_go_project_fin.Database.Sample.{two_tasks}
use mathlib.Core.List.{[], ◌∷◌, ◌++◌}
use ya_lyceum_go_project_fin.Float64.Sample.{Num}
use ya_lyceum_go_project_fin.Agent.Users.{new_user, create_user, is_login_taken, get_user_by_login}
use ya_lyceum_go_project_fin.Agent.Auth.{AuthService, register, log_in, matches_login}

-- A hash is the password itself.
abbrev pub generate_hash : ℤ → String → String → Result String
generate_hash cost salt password = ok password

abbrev pub compare_hash : String → String → Option Error
compare_hash hash password =
    if str_eq hash password
    then none
    else some (
        foreign mismatched_hash_and_password
          "crypto/bcrypt: hashedPassword is not the hash of the given password")

pub same_password :
    (cost : ℤ) (salt password hash : String)
    → generate_hash cost salt password ≡ ok hash
    → compare_hash hash password ≡ none
same_password cost salt password hash e = ground (arith, eq_iff hash password)

abbrev pub sample_bcrypt : Bcrypt
sample_bcrypt = record {
  default_cost = pos 10;
  generate_from_password = generate_hash;
  compare_hash_and_password = compare_hash;
  compare-generate = same_password;
}

abbrev pub secret : String
secret = "0123456789abcdef0123456789abcdef"

-- The one set of claims that the stand-in signs: those of the user 30 at the time 500.
abbrev pub signed_claims : Claims
signed_claims = record {
  expires_at = 1500;
  issued_at = 500;
  not_before = 500;
  issuer = "calculator-app";
  subject = "-------------------------------";
  user_id = "-------------------------------";
}

abbrev pub are_signed : Claims → Bool
are_signed c =
    (c.expires_at == 1500)
    && (c.issued_at == 500)
    && (c.not_before == 500)
    && str_eq c.issuer signed_claims.issuer
    && str_eq c.subject signed_claims.subject
    && str_eq c.user_id signed_claims.user_id

are_signed-same : (c : Claims) → are_signed c ≡ true → c ≡ signed_claims
are_signed-same c h = ground (
  arith,
  eq_iff c.issuer signed_claims.issuer,
  eq_iff c.subject signed_claims.subject,
  eq_iff c.user_id signed_claims.user_id,
)

abbrev pub sign : String → String → Claims → Result String
sign own key c = if str_eq key own && are_signed c then ok "signed" else err (new "no key")

abbrev pub read_signed : String → Result String → String → Result Token
read_signed own (err e) token = err e
read_signed own (ok key) token =
    if str_eq key own && str_eq token "signed"
    then ok (record { claims = some signed_claims; valid = true })
    else err (new "token signature is invalid")

pub read_signed-sign :
    (own : String) (r : Result String) (key : String) (c : Claims) (token : String)
    → r ≡ ok key
    → sign own key c ≡ ok token
    → read_signed own r token ≡ ok (record { claims = some c; valid = true })
read_signed-sign own (err e) key c token given signed = cc
read_signed-sign own (ok k) key c token given signed =
    ground (arith, are_signed-same c, eq_iff token "signed")

-- The one key that signs.
abbrev pub jwt_with : String → Jwt
jwt_with own = record {
  parse_uuid = λ s. parsed_length (S.count s);
  print_uuid = print_dashes;
  parse_uuid-print_uuid = λ u. rw (count-print_dashes u);
  numeric_date = λ t. t;
  signed_string = sign own;
  parse_with_claims = λ key_func now token. read_signed own (key_func hmac) token;
  parse-signed_string = λ key_func key c token now given signed begun fresh.
      read_signed-sign own (key_func hmac) key c token given signed;
}

abbrev pub sample_jwt : Jwt
sample_jwt = jwt_with secret

abbrev pub sample_service : AuthService
sample_service = record {
  bcrypt = sample_bcrypt;
  jwt = sample_jwt;
  rpc = sample_rpc;
  hasher = record { cost = pos 10 };
  jwt_manager = record { secret_key = secret; token_ttl = pos 1000 };
}

-- The error of PostgreSQL for a login that is taken.
abbrev pub registering : Call
registering = record working {
  violation = pg_error "23505" "users_login_key" "duplicate key value violates unique constraint";
}

unfoldable pub agent : Unit {0}
unfolding register create_user hash matches_login is_login_taken generate verify log_in
    get_user_by_login compare print_dashes
agent = tt

abbrev pub bob_id : String
bob_id = "-------------------------------"

abbrev pub with_bob : Db Num
with_bob = record two_tasks { users = two_tasks.users ++ new_user registering "bob" "qwerty" ∷ [] }

pub bob_registers :
    register sample_service "salt" registering "bob" "qwerty" two_tasks ≡ (with_bob, ok bob_id)
unfolding agent
bob_registers = refl

pub bob_token :
    generate sample_jwt sample_rpc sample_service.jwt_manager 500 500 bob_id ≡ ok "signed"
unfolding agent
bob_token = refl
