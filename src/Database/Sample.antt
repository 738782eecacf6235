-- ===== src/Database/Sample.antt =====
-- A database with one user and two tasks, and calls on it, for tests and witnesses.
use Prim.Native.String as S
use text.Mathlib.TextLemmas.{length-cons}
use ya_lyceum_go_project_fin.Prelude.{
  ℕ, zero, suc, String, ◌≡◌, refl, ap, ◌∙◌, true, none, some, [], ◌∷◌,
}
use ya_lyceum_go_project_fin.Errors.{new, Result, ok, err}
use ya_lyceum_go_project_fin.Float64.{pos}
use ya_lyceum_go_project_fin.Float64.Sample.{Num, fin}
use ya_lyceum_go_project_fin.Database.{User, Task, Db, Call}

abbrev pub working : Call
working = record {
  fault = none;
  fresh_id = 30;
  now = 500;
  violation = new "violation";
  no_rows_text = "no rows in result set";
}

-- The connection is lost after the statement has taken effect.
abbrev pub lost : Call
lost = record working { fault = some (record { error = new "connection reset"; applied = true }) }

abbrev owner : User
owner = record { id = 1; login = "alice"; password_hash = "$2a$10$"; created_at = 100 }

abbrev pub first_task : Task Num
first_task = record {
  id = 10;
  user_id = 1;
  expression = "2 + 2";
  status = "completed";
  result = some (fin (pos 4));
  error_message = none;
  created_at = 200;
  updated_at = 210;
}

abbrev pub second_task : Task Num
second_task = record {
  id = 20;
  user_id = 1;
  expression = "2 ** 3";
  status = "pending";
  result = none;
  error_message = none;
  created_at = 300;
  updated_at = 300;
}

abbrev pub two_tasks : Db Num
two_tasks = record { users = owner ∷ []; tasks = first_task ∷ second_task ∷ [] }

-- Ids are written as one dash more than their number.
unfoldable pub print_dashes : ℕ → String
print_dashes zero = "-"
print_dashes (suc n) = S.◌∷◌ "-" (print_dashes n)

abbrev pub parsed_length : ℕ → Result ℕ
parsed_length zero = err (new "invalid UUID length: 0")
parsed_length (suc n) = ok n

pub count-print_dashes : (n : ℕ) → S.count (print_dashes n) ≡ suc n
unfolding print_dashes
count-print_dashes zero = refl
count-print_dashes (suc n) = length-cons "-" (print_dashes n) ∙ ap suc (count-print_dashes n)
