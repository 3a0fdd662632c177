-- ===== src/UsageMonitor/Loop.antt =====
-- What the loop of `evaluate` in src/usage.rs over the windows finds.
use mathlib.Core.Path.{sym, subst, ap}
use orihsus.Prelude.{
  ◌≡◌, refl, ◌∙◌, ◌⊎◌, inl, inr, ℕ, ◌<◌, ◌≤◌, String, Option, none, some, List, [], ◌∷◌, leb, All,
  arith, Bool-cases, Option-cases,
}
use orihsus.UsageMonitor.{max_with, latest_loop}

abbrev pub NoLater : ℕ → Option ℕ → Type 0
NoLater bound none = Unit
NoLater bound (some reset) = reset ≤ bound

-- Some text of the list.
abbrev pub AnyOf : (String → Type 0) → List String → Type 0
AnyOf P [] = ⊥
AnyOf P (n ∷ ns) = P n ⊎ AnyOf P ns

pub AnyOf-map :
    {P Q : String → Type 0} (ns : List String)
    → ((n : String) → P n → Q n)
    → AnyOf P ns
    → AnyOf Q ns
AnyOf-map [] f h = absurd h
AnyOf-map (n ∷ ns) f (inl here) = inl (f n here)
AnyOf-map (n ∷ ns) f (inr there) = inr (AnyOf-map ns f there)

-- What the loop has found: nothing from nothing, or the latest of what was found before and after.
abbrev pub Found : (String → Option ℕ) → List String → Option ℕ → Option ℕ → Type 0
Found due names before none = (before ≡ none) × All (λ n. due n ≡ none) names
Found due names before (some m) =
    NoLater m before
    × All (λ n. NoLater m (due n)) names
    × ((before ≡ some m) ⊎ AnyOf (λ n. due n ≡ some m) names)

NoLater-trans : (o : Option ℕ) (a b : ℕ) → a ≤ b → NoLater a o → NoLater b o
NoLater-trans none a b le h = tt
NoLater-trans (some r) a b le h = omega arith

max_with-NoLater :
    (before : Option ℕ) (r m : ℕ) → max_with before r ≤ m → NoLater m before × (r ≤ m)
max_with-NoLater none r m le = (tt, le)
max_with-NoLater (some old) r m le = (omega arith, omega arith)

pub leb-cases : (a b : ℕ) → (a ≤ b) ⊎ (b < a)
leb-cases a b = elim (Bool-cases (leb a b)) [
  | inl below ↦ inl (ground arith)
  | inr above ↦ inr (ground arith)
]

max_with-cases :
    (before : Option ℕ) (r : ℕ) → (before ≡ some (max_with before r)) ⊎ (r ≡ max_with before r)
max_with-cases none r = inr refl
max_with-cases (some old) r = elim (leb-cases old r) [
  | inl later ↦ inr (omega arith)
  | inr earlier ↦ inl (ap some (omega arith))
]

Found-skip :
    (due : String → Option ℕ) (name : String) (names : List String) (before m : Option ℕ)
    → due name ≡ none
    → Found due names before m
    → Found due (name ∷ names) before m
Found-skip due name names before none nothing (empty, rest) = (empty, (nothing, rest))
Found-skip due name names before (some m) nothing (bound, rest, origin) =
    (bound, (subst (NoLater m) (sym nothing) tt, rest), later_of origin)
  where
    later_of :
        (before ≡ some m) ⊎ AnyOf (λ n. due n ≡ some m) names
        → (before ≡ some m) ⊎ AnyOf (λ n. due n ≡ some m) (name ∷ names)
    later_of (inl old) = inl old
    later_of (inr later) = inr (inr later)

Found-take :
    (due : String → Option ℕ) (name : String) (names : List String) (before m : Option ℕ) (r : ℕ)
    → due name ≡ some r
    → Found due names (some (max_with before r)) m
    → Found due (name ∷ names) before m
Found-take due name names before none r found (empty, rest) = cc
Found-take due name names before (some m) r found (bound, rest, origin) =
    let (old, new) = max_with-NoLater before r m bound in
    (old, (subst (NoLater m) (sym found) new, rest), first_of origin)
  where
    first_of :
        (some (max_with before r) ≡ some m) ⊎ AnyOf (λ n. due n ≡ some m) names
        → (before ≡ some m) ⊎ AnyOf (λ n. due n ≡ some m) (name ∷ names)
    first_of (inr later) = inr (inr later)
    first_of (inl now) = elim (max_with-cases before r) [
      | inl kept ↦ inl (kept ∙ now)
      | inr taken ↦ inr (inl (found ∙ ap some taken ∙ now))
    ]

pub latest_loop-Found :
    (due : String → Option ℕ) (names : List String) (before : Option ℕ)
    → Found due names before (latest_loop due names before)
unfolding latest_loop
latest_loop-Found due [] none = (refl, tt)
latest_loop-Found due [] (some old) = (omega arith, tt, inl refl)
latest_loop-Found due (name ∷ names) before = elim (Option-cases (due name)) [
  | inl nothing ↦
      rw nothing (Found-skip due name names before _ nothing (latest_loop-Found due names before))
  | inr (r, found) ↦ rw found (
      Found-take due name names before _ r found
        (latest_loop-Found due names (some (max_with before r))))
]
