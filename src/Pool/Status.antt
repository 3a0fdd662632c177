-- ===== src/Pool/Status.antt =====
-- `PoolKeyStatus` and `status_snapshot` of src/pool.rs.
pub mod Order
use Prim.Native.Nat.{Ordering}
use Prim.Native.String.{compare}
use mathlib.Core.Option
use orihsus.Prelude.{
  ℕ, ◌-◌, String, Bool, true, false, Option, none, some, List, [], ◌∷◌, map, ltb, if◌then◌else◌,
}
use orihsus.Pool.Entry.{KeyEntry, as_str}
use orihsus.Pool.State.{KeyPool}

pub record PoolKeyStatus : Type 0 where
  pub usage_fingerprint : String
  pub id : String
  pub health : String
  pub cooling_reason : Option String
  pub cooling_remaining : Option ℕ

-- The time left to a deadline that is ahead.
unfoldable pub remaining : ℕ → Option ℕ → Option ℕ
remaining now none = none
remaining now (some deadline) = if ltb now deadline then some (deadline - now) else none

unfoldable pub status_of : ℕ → KeyEntry → PoolKeyStatus
unfolding remaining as_str
status_of now e =
    let left = remaining now e.cooling_until in
    record {
      usage_fingerprint = e.fingerprint;
      id = e.status_id;
      health = elim left [ none ↦ "healthy" | some _ ↦ "cooling" ];
      cooling_reason = elim left [ none ↦ none | some _ ↦ Option.map as_str e.cooling_reason ];
      cooling_remaining = left;
    }

-- Not greater, by the identifier and then by the fingerprint.
unfoldable pub ordered : PoolKeyStatus → PoolKeyStatus → Bool
ordered a b = elim (compare a.id b.id) [
  | Ordering.lt ↦ true
  | Ordering.gt ↦ false
  | Ordering.eq ↦ elim (compare a.usage_fingerprint b.usage_fingerprint) [
    | Ordering.gt ↦ false
    | _ ↦ true
  ]
]

-- A stable sort, as `sort_by` is.
unfoldable pub insert_sorted : PoolKeyStatus → List PoolKeyStatus → List PoolKeyStatus
insert_sorted a [] = a ∷ []
insert_sorted a (b ∷ bs) = if ordered a b then a ∷ b ∷ bs else b ∷ insert_sorted a bs

unfoldable pub sort : List PoolKeyStatus → List PoolKeyStatus
unfolding insert_sorted
sort [] = []
sort (a ∷ rest) = insert_sorted a (sort rest)

unfoldable pub status_snapshot : KeyPool → ℕ → List PoolKeyStatus
unfolding status_of sort
status_snapshot p now = sort (map (status_of now) p.entries)
