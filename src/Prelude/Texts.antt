-- ===== src/Prelude/Texts.antt =====
-- What the services use of the packages regexp and strings: a class of characters, a length in
-- characters, and whether a text occurs in another.
use Prim.Native.Nat.{ℕ, ◌+◌}
use Prim.Native.Char.{Char, code}
use Prim.Native.String.{String, [], ◌∷◌, ◌++◌, count}
use mathlib.Core.Bool.{Bool, true, false, ◌&&◌, ◌||◌}
use mathlib.Core.Path.{◌≡◌, refl, ap, ◌∙◌}
use text.Mathlib.TextLemmas.{nil-append, cons-append}
use mathlib.Core.List as L
use mathlib.Core.List.{List}
use ya_lyceum_go_project_fin.Prelude.Tests.{leb, ◌==◌, if◌then◌else◌}

-- [a-zA-Z0-9_]
abbrev pub is_word : Char → Bool
is_word c =
    leb 97 (code c) && leb (code c) 122
    || leb 65 (code c) && leb (code c) 90
    || leb 48 (code c) && leb (code c) 57
    || (code c == 95)

abbrev pub all_word : String → Bool
all_word [] = true
all_word (c ∷ s) = is_word c && all_word s

abbrev pub starts_with : String → String → Bool
starts_with [] s = true
starts_with (c ∷ p) [] = false
starts_with (c ∷ p) (d ∷ s) = (code c == code d) && starts_with p s

-- `strings.Contains(s, p)`
unfoldable pub contains : String → String → Bool
contains [] p = starts_with p []
contains (c ∷ s) p = let rest = contains s p in starts_with p (c ∷ s) || rest

unfoldable pub characters : String → ℕ
characters s = count s

abbrev with_head : Char → List String → List String
with_head c L.[] = L.◌∷◌ (c ∷ []) L.[]
with_head c (L.◌∷◌ s ss) = L.◌∷◌ (c ∷ s) ss

-- `strings.Split(s, " ")`
unfoldable pub split : String → List String
split [] = L.◌∷◌ [] L.[]
split (c ∷ s) = let rest = split s in if code c == 32 then L.◌∷◌ [] rest else with_head c rest

-- No space in a text.
abbrev pub HasNoSpace : String → Type 0
HasNoSpace [] = Unit
HasNoSpace (c ∷ s) = ((code c == 32) ≡ false) × HasNoSpace s

pub split_one : (s : String) → HasNoSpace s → split s ≡ L.◌∷◌ s L.[]
unfolding split
split_one [] h = refl
split_one (c ∷ s) (p, h) = rw (p, split_one s h)

abbrev lower_code : ℕ → ℕ
lower_code n = if leb 65 n && leb n 90 then n + 32 else n

-- `strings.ToLower(s) == p`, for a text `p` of small ASCII letters other than `k`: the sign for Kelvin
-- is the one other character whose small letter is in ASCII.
unfoldable pub lowers_to : String → String → Bool
lowers_to [] [] = true
lowers_to [] (d ∷ p) = false
lowers_to (c ∷ s) [] = false
lowers_to (c ∷ s) (d ∷ p) = (lower_code (code c) == code d) && lowers_to s p

space_append : (t : String) → " " ++ t ≡ " " ∷ t
space_append t = cons-append " " "" t ∙ ap (λ s. " " ∷ s) (nil-append t)

-- A text of two parts at one space.
pub split_two :
    (a t : String) → HasNoSpace a → HasNoSpace t → split (a ++ " " ++ t) ≡ L.◌∷◌ a (L.◌∷◌ t L.[])
unfolding split
split_two [] t k h = ap split (nil-append (" " ++ t) ∙ space_append t) ∙ (rw (split_one t h))
split_two (c ∷ a) t (p, k) h = ap split (cons-append c a (" " ++ t)) ∙ (rw (p, split_two a t k h))
