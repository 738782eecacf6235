-- ===== src/Agent/Auth/Form.antt =====
-- The logins that the regular expression of internal/agent/service/auth.go matches.
use Prim.Native.Char.{Char, code}
use Prim.Native.String.{String, [], ◌∷◌}
use ya_lyceum_go_project_fin.Prelude.{◌≤◌, ◌≡◌, ◌⊎◌, true, arith}
use ya_lyceum_go_project_fin.Prelude.Texts.{is_word, all_word, characters}
use ya_lyceum_go_project_fin.Agent.Auth.{matches_login}

-- A letter of ASCII, a digit or `_`.
abbrev pub IsLoginCharacter : Char → Type 0
IsLoginCharacter c =
    ((97 ≤ code c) × (code c ≤ 122))
    ⊎ ((65 ≤ code c) × (code c ≤ 90))
    ⊎ ((48 ≤ code c) × (code c ≤ 57))
    ⊎ (code c ≡ 95)

abbrev pub IsLoginText : String → Type 0
IsLoginText [] = Unit
IsLoginText (c ∷ s) = IsLoginCharacter c × IsLoginText s

abbrev pub IsLogin : String → Type 0
IsLogin s = (3 ≤ characters s) × (characters s ≤ 30) × IsLoginText s

is_word-IsLoginCharacter : (c : Char) → is_word c ≡ true → IsLoginCharacter c
is_word-IsLoginCharacter c h = ground arith

all_word-IsLoginText : (s : String) → all_word s ≡ true → IsLoginText s
all_word-IsLoginText [] h = tt
all_word-IsLoginText (c ∷ s) h =
    (is_word-IsLoginCharacter c (ground arith), all_word-IsLoginText s (ground arith))

pub matches_login-IsLogin : (s : String) → matches_login s ≡ true → IsLogin s
unfolding matches_login
matches_login-IsLogin s h = (ground arith, ground arith, all_word-IsLoginText s (ground arith))
