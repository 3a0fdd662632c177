-- ===== src/Pool/Cursor/Rotation.antt =====
-- Where `advance_cursor` of src/pool.rs leaves the cursor.
use native.Mathlib.Nat.{mod-lt}
use native.Mathlib.Decide.{ℕ_discrete}
use orihsus.Prelude.{
  ℕ, zero, suc, ◌+◌, ◌%◌, ◌≤◌, ◌<◌, ◌≡◌, ◌≢◌, refl, ◌⊎◌, inl, inr, Bool, true, false, not, none,
  List, [], ◌∷◌, length, get_elem?, is_some_and, Option-cases, Bool-cases, arith,
}
use orihsus.Pool.Entry.{KeyEntry, is_cooling}
use orihsus.Pool.Cursor.{advance_rounds, advance_cursor}

-- Whether the entry at a place is there and is not cooling.
abbrev pub available_at : List KeyEntry → ℕ → ℕ → Bool
available_at es now i = is_some_and (get_elem? es i) (λ e. not (is_cooling now e))

get_elem?-ne-none : (es : List KeyEntry) (i : ℕ) → i < length es → get_elem? es i ≢ none
get_elem?-ne-none [] i h = elim h [ ]
get_elem?-ne-none (e ∷ es) zero h = cc
get_elem?-ne-none (e ∷ es) (suc i) h = get_elem?-ne-none es i (omega arith)

module _ (es : List KeyEntry) (now cursor : ℕ) where
  -- The place `off` steps behind the cursor.
  abbrev pub place : ℕ → ℕ
  place off = (cursor + off) % length es

  -- The cursor moved to the first available entry behind it, from `from` on and before `upto`.
  abbrev pub Moved : ℕ → ℕ → ℕ → Type 0
  Moved from upto c =
      (off : ℕ) × (from ≤ off)
      × (off < upto)
      × (c ≡ place off)
      × (available_at es now (place off) ≡ true)
      × ((k : ℕ) → from ≤ k → k < off → available_at es now (place k) ≡ false)

  -- It stayed, since none is available.
  abbrev pub Stayed : ℕ → ℕ → ℕ → Type 0
  Stayed from upto c =
      (c ≡ cursor) × ((k : ℕ) → from ≤ k → k < upto → available_at es now (place k) ≡ false)

  widen :
      (off upto : ℕ)
      → available_at es now (place off) ≡ false
      → ((k : ℕ) → off + 1 ≤ k → k < upto → available_at es now (place k) ≡ false)
      → (k : ℕ) → off ≤ k
      → k < upto
      → available_at es now (place k) ≡ false
  widen off upto here later k a b = elim (ℕ_discrete off k) [
    | yes p ↦ rw p at here
    | no p ↦ later k (omega arith) b
  ]

  skip :
      (off rounds c : ℕ)
      → available_at es now (place off) ≡ false
      → Moved (off + 1) (off + 1 + rounds) c ⊎ Stayed (off + 1) (off + 1 + rounds) c
      → Moved off (off + suc rounds) c ⊎ Stayed off (off + suc rounds) c
  skip off rounds c here (inl (x, lo, hi, e, ready, before)) =
      inl (x, omega arith, omega arith, e, ready, widen off x here before)
  skip off rounds c here (inr (e, before)) =
      inr (e, λ k a b. widen off (off + suc rounds) here (λ k a b. before k a (omega arith)) k a b)

  rounds_lem :
      (rounds off : ℕ)
      → 0 < length es
      → Moved off (off + rounds) (advance_rounds es now cursor rounds off)
        ⊎ Stayed off (off + rounds) (advance_rounds es now cursor rounds off)
  unfolding advance_rounds
  rounds_lem zero off h = inr (refl, λ k a b. absurd (omega arith))
  rounds_lem (suc rounds) off h = elim (Option-cases (get_elem? es (place off))) [
    | inl out ↦ absurd (get_elem?-ne-none es (place off) (mod-lt (cursor + off) h) out)
    | inr (e, at) ↦ elim (Bool-cases (is_cooling now e)) [
      | inl cooling ↦
          rw (at, cooling, advance_rounds)
            (skip off rounds _ (rw (at, cooling)) (rounds_lem rounds (off + 1) h))
      | inr ready ↦
          rw (at, ready, advance_rounds)
            (inl
              (off, omega arith, omega arith, refl, rw (at, ready), λ k a b. absurd (omega arith)))
    ]
  ]

  -- On a list that is not empty, the cursor moves to the nearest entry behind it that is not cooling,
  -- going round and coming to its own place last; where every entry cools, it stays.
  pub advance_cursor_lem :
      0 < length es
      → Moved 1 (1 + length es) (advance_cursor es now cursor)
        ⊎ Stayed 1 (1 + length es) (advance_cursor es now cursor)
  unfolding advance_cursor
  advance_cursor_lem h = rounds_lem (length es) 1 h

  -- Either way it stays within the list.
  pub advance_cursor-lt : cursor < length es → advance_cursor es now cursor < length es
  advance_cursor-lt h = elim (advance_cursor_lem (omega arith)) [
    | inl (off, _, _, e, _, _) ↦ rw e (mod-lt (cursor + off) (omega arith))
    | inr (e, _) ↦ rw e h
  ]
