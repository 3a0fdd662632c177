-- ===== src/Prelude/Maps.antt =====
-- `HashMap` and `BTreeMap` with text keys, as the list of their entries: `get` and `insert`.
use Prim.Native.String.{String}
use mathlib.Core.Path.{◌≡◌, refl}
use mathlib.Core.List.{List, [], ◌∷◌}
use mathlib.Core.Option.{Option, none, some}
use text.Mathlib.TextEquality.{eq_iff}
use native.Mathlib.Omega.{arith}
use orihsus.Prelude.Tests.{str_eq, if◌then◌else◌}

abbrev pub Entries {ℓ} : Type ℓ → Type ℓ
Entries V = List (String × V)

module _ {ℓ} {V : Type ℓ} where
  unfoldable pub lookup : (key : String) → Entries V → Option V
  lookup key (entry ∷ rest) =
      let below = lookup key rest in if str_eq entry.0 key then some entry.1 else below
  lookup key [] = none

  unfoldable pub insert : (key : String) → V → Entries V → Entries V
  insert key value (entry ∷ rest) =
      let below = insert key value rest in
      if str_eq entry.0 key then (key, value) ∷ rest else entry ∷ below
  insert key value [] = (key, value) ∷ []

  pub lookup-insert :
      (key asked : String) (value : V) (entries : Entries V)
      → lookup asked (insert key value entries)
        ≡ (if str_eq key asked then some value else lookup asked entries)
  unfolding lookup insert
  lookup-insert key asked value (entry ∷ rest) =
      let below = lookup-insert key asked value rest in
      ground (arith, eq_iff key asked, eq_iff entry.0 key, eq_iff entry.0 asked, below)
  lookup-insert key asked value [] = refl
