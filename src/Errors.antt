-- ===== src/Errors.antt =====
-- Go's error values as the services build them (`errors.New`, `fmt.Errorf`, `status.Error`), with
-- `errors.Is` and `Error()`. The package-level error variables of internal/ are the `Sentinel`s.
use Prim.Native.String
use ya_lyceum_go_project_fin.Prelude.{
  ◌≡◌, refl, ◌⊎◌, inl, inr, ℕ, String, Bool, false, ◌||◌, ◌==◌, List, [], ◌∷◌,
}

-- The error variables, each matched by identity.
pub data Sentinel : Type 0 where
  division_by_zero unknown_operator : Sentinel
  unsupported_node_type evaluation_timeout : Sentinel
  task_not_found task_database : Sentinel
  user_not_found login_already_exists user_database : Sentinel
  invalid_login_format invalid_password_format invalid_credentials : Sentinel
  registration_failed login_failed : Sentinel
  agent_task_not_found : Sentinel
  canceled deadline_exceeded : Sentinel

-- `Error()` of each variable; the last two are those of the package context.
abbrev pub text : Sentinel → String
text division_by_zero = "деление на ноль"
text unknown_operator = "неизвестный оператор"
text unsupported_node_type = "неподдерживаемый тип узла AST"
text evaluation_timeout = "превышен таймаут вычисления выражения"
text task_not_found = "задача не найдена"
text task_database = "ошибка базы данных"
text user_not_found = "пользователь не найден"
text login_already_exists = "пользователь с таким логином уже существует"
text user_database = "ошибка базы данных"
text invalid_login_format = "неверный формат логина (3-30 символов, буквы, цифры, '_')"
text invalid_password_format = "неверный формат пароля (минимум 6 символов)"
text invalid_credentials = "неверный логин или пароль"
text registration_failed = "ошибка регистрации"
text login_failed = "ошибка входа"
text agent_task_not_found = "задача не найдена или нет прав доступа"
text canceled = "context canceled"
text deadline_exceeded = "context deadline exceeded"

-- The codes of google.golang.org/grpc/codes.
pub data Code : Type 0 where
  ok_code canceled_code unknown invalid_argument deadline_exceeded_code not_found : Code
  already_exists permission_denied resource_exhausted failed_precondition aborted : Code
  out_of_range unimplemented internal unavailable data_loss unauthenticated : Code

-- The error variables of the libraries that the code matches by `errors.Is`.
pub data Foreign : Type 0 where
  no_rows mismatched_hash_and_password token_expired token_not_valid_yet : Foreign
  server_closed : Foreign

-- `fmt.Errorf` formats at once: `wrap` and `wrap_two` hold the finished text and the operands of
-- `%w`; a text with no `%w` is `new`, as from `errors.New`. `status` is an error of package status.
-- `foreign` is a library's variable with what it prints. `pg_error` is a `*pgconn.PgError`.
pub data Error : Type 0 where
  sentinel : Sentinel → Error
  new : String → Error
  wrap : String → Error → Error
  wrap_two : String → Error → Error → Error
  status : Code → String → Error
  foreign : Foreign → String → Error
  pg_error : String → String → String → Error

-- A number for each variable, so that two of them are compared.
abbrev sentinel_number : Sentinel → ℕ
sentinel_number division_by_zero = 0
sentinel_number unknown_operator = 1
sentinel_number unsupported_node_type = 2
sentinel_number evaluation_timeout = 3
sentinel_number task_not_found = 4
sentinel_number task_database = 5
sentinel_number user_not_found = 6
sentinel_number login_already_exists = 7
sentinel_number user_database = 8
sentinel_number invalid_login_format = 9
sentinel_number invalid_password_format = 10
sentinel_number invalid_credentials = 11
sentinel_number registration_failed = 12
sentinel_number login_failed = 13
sentinel_number agent_task_not_found = 14
sentinel_number canceled = 15
sentinel_number deadline_exceeded = 16

abbrev pub same_sentinel : Sentinel → Sentinel → Bool
same_sentinel a b = sentinel_number a == sentinel_number b

-- `errors.Is(err, target)` for a target of internal/ or of package context.
unfoldable pub is : Sentinel → Error → Bool
is target (sentinel s) = same_sentinel s target
is target (new _) = false
is target (wrap _ e) = is target e
is target (wrap_two _ e f) = is target e || is target f
is target (status _ _) = false
is target (foreign _ _) = false
is target (pg_error _ _ _) = false

abbrev foreign_number : Foreign → ℕ
foreign_number no_rows = 0
foreign_number mismatched_hash_and_password = 1
foreign_number token_expired = 2
foreign_number token_not_valid_yet = 3
foreign_number server_closed = 4

abbrev pub same_foreign : Foreign → Foreign → Bool
same_foreign a b = foreign_number a == foreign_number b

-- `errors.Is(err, target)` for a library's target.
unfoldable pub is_foreign : Foreign → Error → Bool
is_foreign target (foreign f _) = same_foreign f target
is_foreign target (wrap _ e) = is_foreign target e
is_foreign target (wrap_two _ e f) = is_foreign target e || is_foreign target f
is_foreign target (sentinel _) = false
is_foreign target (new _) = false
is_foreign target (status _ _) = false
is_foreign target (pg_error _ _ _) = false

-- The parts of a format and its operands, in order.
abbrev pub sprint : List String → String
sprint [] = ""
sprint (s ∷ ss) = String.◌++◌ s (sprint ss)

-- A call's value or its error; the zero value that Go returns beside an error is not read by any
-- caller.
pub data Result {ℓ} (A : Type ℓ) : Type ℓ where
  ok : A → Result A
  err : Error → Result A

-- The next call, made only if this one has no error.
infixl 5 ◌>>=◌
abbrev pub ◌>>=◌ {ℓ κ} : {V : Type ℓ} {W : Type κ} → Result V → (V → Result W) → Result W
err failed >>= next = err failed
ok v >>= next = next v

-- `if err != nil { return f(err) }`.
abbrev pub map_err {ℓ} : {A : Type ℓ} → (Error → Error) → Result A → Result A
map_err f (ok a) = ok a
map_err f (err e) = err (f e)

pub Result-cases {ℓ} :
    {A : Type ℓ} (r : Result A) → ((a : A) × (r ≡ ok a)) ⊎ ((e : Error) × (r ≡ err e))
Result-cases (ok a) = inl (a, refl)
Result-cases (err e) = inr (e, refl)
