-- ===== src/Prelude/Distinct.antt =====
-- Lists of texts without a repetition, and the loops that check for one with a set of those seen.
use Prim.Native.String.{String}
use mathlib.Core.Path.{◌≡◌, refl}
use mathlib.Core.Bool.{false}
use mathlib.Core.List.{List, [], ◌∷◌}
use native.Mathlib.Omega.{arith}
use text.Mathlib.TextEquality.{eq_iff}
use orihsus.Prelude.Tests.{str_eq}
use orihsus.Prelude.Lists.{any, All, All-map}

-- No text stands twice in the list.
abbrev pub NoRepeat : List String → Type 0
NoRepeat [] = Unit
NoRepeat (s ∷ ss) = (any (str_eq s) ss ≡ false) × NoRepeat ss

-- No text of the list is among those seen.
abbrev pub Unseen : List String → List String → Type 0
Unseen seen = All (λ s. any (str_eq s) seen ≡ false)

-- What follows a text and was checked against it does not hold it.
pub Unseen-head :
    (x : String) (seen ss : List String) → Unseen (x ∷ seen) ss → any (str_eq x) ss ≡ false
Unseen-head x seen [] h = refl
Unseen-head x seen (s ∷ ss) h = ground (arith, eq_iff x s, eq_iff s x, Unseen-head x seen ss h.1)

pub Unseen-tail : (x : String) (seen ss : List String) → Unseen (x ∷ seen) ss → Unseen seen ss
Unseen-tail x seen ss h = All-map ss (λ s both. ground arith) h
