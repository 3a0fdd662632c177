-- ===== src/Pool/Status/Order.antt =====
-- The order of `status_snapshot` in src/pool.rs.
use Prim.Native.Nat.{Ordering, compare as compare_ℕ}
use Prim.Native.Char.{code}
use Prim.Native.String.{then, compare}
use Prim.Native.String.compare
use Prim.Native.Nat.compare as compare_nat
use mathlib.Core.List.Perm
use mathlib.Core.List.{Perm}
use orihsus.Prelude.{
  ℕ, zero, suc, ◌≡◌, refl, String, true, false, List, [], ◌∷◌, map, Bool-cases, inl, inr, arith,
}
use orihsus.Pool.State.{KeyPool}
use orihsus.Pool.Status.{PoolKeyStatus, status_of, ordered, insert_sorted, sort, status_snapshot}

abbrev flip : Ordering → Ordering
flip Ordering.lt = Ordering.gt
flip Ordering.eq = Ordering.eq
flip Ordering.gt = Ordering.lt

numbers-flip : (m n : ℕ) → compare_ℕ n m ≡ flip (compare_ℕ m n)
numbers-flip zero zero = rw compare_nat.zero-zero refl
numbers-flip zero (suc n) = rw (compare_nat.zero-suc n, compare_nat.suc-zero n) refl
numbers-flip (suc m) zero = rw (compare_nat.zero-suc m, compare_nat.suc-zero m) refl
numbers-flip (suc m) (suc n) =
    rw (compare_nat.suc-suc m n, compare_nat.suc-suc n m) (numbers-flip m n)

then-flip : (o r : Ordering) → flip (then o r) ≡ then (flip o) (flip r)
then-flip Ordering.lt r = refl
then-flip Ordering.eq r = refl
then-flip Ordering.gt r = refl

compare-flip : (s t : String) → compare t s ≡ flip (compare s t)
compare-flip String.[] String.[] = rw compare.nil-nil refl
compare-flip String.[] (String.◌∷◌ d t) = rw (compare.nil-cons d t, compare.cons-nil d t) refl
compare-flip (String.◌∷◌ c s) String.[] = rw (compare.nil-cons c s, compare.cons-nil c s) refl
compare-flip (String.◌∷◌ c s) (String.◌∷◌ d t) =
    rw
      (
        compare.cons-cons c d s t,
        compare.cons-cons d c t s,
        then-flip,
        numbers-flip (code c) (code d),
        compare-flip s t,
      )
      refl

ordered_total : (a b : PoolKeyStatus) → ordered a b ≡ false → ordered b a ≡ true
unfolding ordered
ordered_total a b h =
    ground (arith, compare-flip a.id b.id, compare-flip a.usage_fingerprint b.usage_fingerprint)

-- Each status is not greater than the next.
abbrev pub Sorted : List PoolKeyStatus → Type 0
Sorted [] = Unit
Sorted (a ∷ []) = Unit
Sorted (a ∷ b ∷ rest) = (ordered a b ≡ true) × Sorted (b ∷ rest)

Sorted-insert :
    (a : PoolKeyStatus) (bs : List PoolKeyStatus) → Sorted bs → Sorted (insert_sorted a bs)
unfolding insert_sorted
Sorted-insert a [] h = tt
Sorted-insert a (b ∷ []) h = elim (Bool-cases (ordered a b)) [
  | inl before ↦ rw before (before, tt)
  | inr after ↦ rw after (ordered_total a b after, tt)
]
Sorted-insert a (b ∷ c ∷ rest) h = elim (Bool-cases (ordered a b)) [
  | inl before ↦ rw before (before, h)
  | inr after ↦
      let below = Sorted-insert a (c ∷ rest) h.1 in
      elim (Bool-cases (ordered a c)) [
        | inl next ↦ rw (after, next) (ordered_total a b after, (next, h.1))
        | inr later ↦ rw (after, later) (h.0, rw later at below)
      ]
]

insert_sorted-Perm :
    (a : PoolKeyStatus) (bs : List PoolKeyStatus) → Perm (insert_sorted a bs) (a ∷ bs)
unfolding insert_sorted
insert_sorted-Perm a [] = Perm.rfl
insert_sorted-Perm a (b ∷ bs) = elim (Bool-cases (ordered a b)) [
  | inl before ↦ rw before Perm.rfl
  | inr after ↦ rw after (Perm.trans (Perm.cons b (insert_sorted-Perm a bs)) (Perm.swap a b bs))
]

sort_lem : (rows : List PoolKeyStatus) → Sorted (sort rows) × Perm (sort rows) rows
unfolding sort
sort_lem [] = (tt, Perm.rfl)
sort_lem (a ∷ rest) =
    let (sorted, same) = sort_lem rest in
    (
      Sorted-insert a (sort rest) sorted,
      Perm.trans (insert_sorted-Perm a (sort rest)) (Perm.cons a same),
    )

-- The snapshot holds the status of each entry, as often as the entry list does, and goes up by the
-- identifier and, where identifiers are equal, by the fingerprint.
pub status_snapshot_lem :
    (p : KeyPool) (now : ℕ)
    → Sorted (status_snapshot p now) × Perm (status_snapshot p now) (map (status_of now) p.entries)
unfolding status_snapshot
status_snapshot_lem p now = sort_lem (map (status_of now) p.entries)
