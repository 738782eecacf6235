-- ===== src/Start/Order.antt =====
-- The constructors of a process in the order in which they are given: that it is one in which they can be
-- called.
use mathlib.Core.List.{Memᴰ}
use ya_lyceum_go_project_fin.Prelude.{
  ℕ, ◌+◌, ◌≤◌, ◌<◌, String, ◌≡◌, ◌⊎◌, inl, inr, refl, sym, ◌∙◌, subst, Bool, true, false, not, ◌&&◌,
  List, [], ◌∷◌, str_eq, eq_iff, arith, Bool-cases, if◌then◌else◌,
}
use ya_lyceum_go_project_fin.Start.{
  Provider, Wiring, Process, agent, orchestrator, worker, wiring, has, has_all,
}

-- Each constructor takes what is there before it or what a constructor before it gives.
abbrev pub is_ordered : List String → List Provider → Bool
is_ordered vs [] = true
is_ordered vs (p ∷ ps) = has_all p.takes vs && is_ordered (p.gives ∷ vs) ps

abbrev pub outputs : List String → List Provider → List String
outputs vs [] = vs
outputs vs (p ∷ ps) = outputs (p.gives ∷ vs) ps

abbrev pub gives_of : List Provider → List String
gives_of [] = []
gives_of (p ∷ ps) = p.gives ∷ gives_of ps

abbrev pub are_distinct : List Provider → Bool
are_distinct [] = true
are_distinct (p ∷ ps) = not (has p.gives (gives_of ps)) && are_distinct ps

-- The constructors stand in a possible order, and give all that the invoked function takes; no two give
-- values of one type, and none the lifecycle of fx.
abbrev pub is_complete : Wiring → Bool
is_complete w =
    is_ordered ("fx.Lifecycle" ∷ []) w.providers
    && has_all w.invoked (outputs ("fx.Lifecycle" ∷ []) w.providers)
    && are_distinct w.providers
    && not (has "server" (gives_of w.providers))
    && not (has "fx.Lifecycle" (gives_of w.providers))

pub wiring-is_complete : (a : Process) → is_complete (wiring a) ≡ true
wiring-is_complete agent = refl
wiring-is_complete orchestrator = refl
wiring-is_complete worker = refl

abbrev pub IsWithin : List String → List String → Type 0
IsWithin xs ys = (x : String) → has x xs ≡ true → has x ys ≡ true

pub has_all-IsWithin :
    (xs ys zs : List String) → IsWithin ys zs → has_all xs ys ≡ true → has_all xs zs ≡ true
has_all-IsWithin [] ys zs within h = refl
has_all-IsWithin (x ∷ xs) ys zs within h =
    let here : has x zs ≡ true = within x (ground arith) in
    ground (arith, has_all-IsWithin xs ys zs within)

pub IsWithin-cons :
    (x : String) (xs ys : List String) → IsWithin xs ys → has x ys ≡ true → IsWithin (x ∷ xs) ys
IsWithin-cons x xs ys within here y h = elim (Bool-cases (str_eq y x)) [
  | inl same ↦ subst (λ z. has z ys ≡ true) (ground (arith, eq_iff y x)) here
  | inr other ↦ within y (ground arith)
]

-- All the constructors have been called, or one can be.
pub callable :
    (vs : List String) (ps : List Provider) (values : List String)
    → is_ordered vs ps ≡ true
    → IsWithin vs values
    → IsWithin (outputs vs ps) values
      ⊎ ((p : Provider) × Memᴰ p ps
          × (has_all p.takes values ≡ true)
          × (has p.gives values ≡ false))
callable vs [] values ordered within = inl within
callable vs (p ∷ ps) values ordered within = elim (Bool-cases (has p.gives values)) [
  | inr missing ↦
      inr (p, Memᴰ.head refl, has_all-IsWithin p.takes vs values within (ground arith), missing)
  | inl called ↦
      elim (callable (p.gives ∷ vs) ps values (ground arith)
        (IsWithin-cons p.gives vs values within called)) [
          | inl all ↦ inl all
          | inr (q, there, ready, missing) ↦ inr (q, Memᴰ.tail there, ready, missing)
        ]
]

pub Mem-gives_of :
    (p : Provider) (ps : List Provider) → Memᴰ p ps → has p.gives (gives_of ps) ≡ true
Mem-gives_of p [] m = elim m [ ]
Mem-gives_of p (q ∷ ps) (Memᴰ.head same) = ground (arith, eq_iff p.gives q.gives)
Mem-gives_of p (q ∷ ps) (Memᴰ.tail there) = ground (arith, Mem-gives_of p ps there)

pub Mem-other :
    (x : String) (p : Provider) (ps : List Provider)
    → Memᴰ p ps
    → has x (gives_of ps) ≡ false
    → str_eq x p.gives ≡ false
Mem-other x p ps m h = ground (arith, Mem-gives_of p ps m, eq_iff x p.gives)

pub same_provider :
    (ps : List Provider) (p q : Provider)
    → are_distinct ps ≡ true
    → Memᴰ p ps
    → Memᴰ q ps
    → p.gives ≡ q.gives
    → p ≡ q
same_provider [] p q distinct m m' same = elim m [ ]
same_provider (r ∷ ps) p q distinct (Memᴰ.head e) (Memᴰ.head e') same = e ∙ sym e'
same_provider (r ∷ ps) p q distinct (Memᴰ.head e) (Memᴰ.tail m) same =
    ground (arith, Mem-gives_of q ps m, e, same)
same_provider (r ∷ ps) p q distinct (Memᴰ.tail m) (Memᴰ.head e) same =
    ground (arith, Mem-gives_of p ps m, e, same)
same_provider (r ∷ ps) p q distinct (Memᴰ.tail m) (Memᴰ.tail m') same =
    same_provider ps p q (ground arith) m m' same

-- The constructors that have not been called.
abbrev pub missing : List Provider → List String → ℕ
missing [] vs = 0
missing (p ∷ ps) vs = (if has p.gives vs then 0 else 1) + missing ps vs

pub missing-cons :
    (ps : List Provider) (g : String) (vs : List String) → missing ps (g ∷ vs) ≤ missing ps vs
missing-cons [] g vs = omega arith
missing-cons (p ∷ ps) g vs = ground (arith, missing-cons ps g vs)

pub missing-called :
    (ps : List Provider) (p : Provider) (vs : List String)
    → Memᴰ p ps
    → has p.gives vs ≡ false
    → missing ps (p.gives ∷ vs) < missing ps vs
missing-called [] p vs m h = elim m [ ]
missing-called (q ∷ ps) p vs (Memᴰ.head same) h =
    ground (arith, missing-cons ps p.gives vs, eq_iff q.gives p.gives)
missing-called (q ∷ ps) p vs (Memᴰ.tail there) h = ground (arith, missing-called ps p vs there h)
