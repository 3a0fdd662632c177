-- ===== src/Pool/Attempts/Select.antt =====
-- Which key `try_select_unused` of src/pool.rs selects.
use orihsus.Prelude.{
  ℕ, ◌≡◌, ◌⊎◌, inl, inr, true, false, none, some, List, ◌∷◌, ◌++◌, All, All-map, find_cases, arith,
}
use orihsus.Pool.Entry.{KeyEntry, is_cooling, find_entry}
use orihsus.Pool.State.{KeyPool}
use orihsus.Pool.Attempts.{
  RequestCandidate, RequestAttempts, is_used, model_cooling, selectable, after_select, selection_of,
  try_select_unused,
}

module _ (p : KeyPool) (r : RequestAttempts) (now : ℕ) where
  -- The candidate is new to the request, still in the pool, and cools neither as a whole nor for
  -- the model of the request.
  abbrev pub Free : RequestCandidate → Type 0
  Free c =
      (is_used r c.fingerprint ≡ false)
      × (e : KeyEntry) × (find_entry c.fingerprint p.entries ≡ some e)
      × (is_cooling now e ≡ false)
      × (model_cooling r now e ≡ false)

  -- It is used up, removed from the pool, or cooling.
  abbrev pub Barred : RequestCandidate → Type 0
  Barred c =
      (is_used r c.fingerprint ≡ true)
      ⊎ (find_entry c.fingerprint p.entries ≡ none)
      ⊎ ((e : KeyEntry) × (find_entry c.fingerprint p.entries ≡ some e)
          × ((is_cooling now e ≡ true) ⊎ (model_cooling r now e ≡ true)))

  Free-of_selectable : (c : RequestCandidate) → selectable p r now c ≡ true → Free c
  unfolding selectable
  Free-of_selectable c h = ground arith

  Barred-of_not : (c : RequestCandidate) → selectable p r now c ≡ false → Barred c
  unfolding selectable
  Barred-of_not c h = ground arith

  -- The selection is the first free candidate, in the order of the snapshot, with the next id of
  -- the pool; there is none only if every candidate is barred.
  pub try_select_unused_lem :
      ((try_select_unused p r now ≡ none) × All Barred r.candidates)
      ⊎ ((c : RequestCandidate) × (skipped rest : List RequestCandidate) × (try_select_unused p r
              now
            ≡ some (selection_of p c, after_select p now c))
          × (r.candidates ≡ skipped ++ c ∷ rest)
          × Free c
          × All Barred skipped)
  unfolding try_select_unused
  try_select_unused_lem = elim (find_cases (selectable p r now) r.candidates) [
    | inl (nothing, barred) ↦
        inl (rw (nothing, try_select_unused), All-map r.candidates Barred-of_not barred)
    | inr (c, skipped, rest, found, split, hit, missed) ↦ inr (
      c,
      skipped,
      rest,
      rw (found, try_select_unused),
      split,
      Free-of_selectable c hit,
      All-map skipped Barred-of_not missed,
    )
  ]
