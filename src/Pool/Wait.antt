-- ===== src/Pool/Wait.antt =====
-- `next` and `earliest_recovery` of src/pool.rs. Between the locks that one round of the loop takes,
-- and while it sleeps, other tasks work on the pool: a round carries what they do and what the three
-- readings of the clock give.
pub mod Calls
pub mod Grows
pub mod Terminates
pub mod Rounds
use mathlib.Core.List.{filter_map}
use orihsus.Prelude.{
  lookup, ℕ, ◌-◌, max, min, Bool, Option, none, some, List, [], ◌∷◌, length, ltb, leb,
  if◌then◌else◌,
}
use orihsus.Pool.Entry.{KeyEntry, find_entry}
use orihsus.Pool.State.{KeyPool}
use orihsus.Pool.Attempts.{
  Selection, RequestCandidate, RequestAttempts, selected, unavailable, exhausted, Attempt,
  push_used, try_select_unused, has_unused,
}

-- When an entry has recovered for the request: the later of its two deadlines.
unfoldable pub recovery_of : RequestAttempts → KeyEntry → Option ℕ
recovery_of r e =
    later e.cooling_until (elim r.model [ none ↦ none | some m ↦ lookup m e.liveness_cooling ])
  where
    later : Option ℕ → Option ℕ → Option ℕ
    later (some global) (some of_model) = some (max global of_model)
    later (some global) none = some global
    later none of_model = of_model

-- The deadlines ahead of `now`, of the candidates that the pool still has.
unfoldable pub recovery_times : KeyPool → RequestAttempts → ℕ → List RequestCandidate → List ℕ
unfolding recovery_of
recovery_times p r now [] = []
recovery_times p r now (c ∷ cs) =
    let rest = recovery_times p r now cs in
    elim (find_entry c.fingerprint p.entries) [
      | none ↦ rest
      | some e ↦ elim (recovery_of r e) [
        | none ↦ rest
        | some d ↦ if ltb now d then d ∷ rest else rest
      ]
    ]

-- `Iterator::min`.
unfoldable pub minimum : List ℕ → Option ℕ
minimum [] = none
minimum (d ∷ ds) = elim (minimum ds) [ none ↦ some d | some m ↦ some (min d m) ]

unfoldable pub earliest_recovery : KeyPool → RequestAttempts → ℕ → Option ℕ
unfolding recovery_times minimum
earliest_recovery p r now = minimum (recovery_times p r now r.candidates)

pub record Round : Type 0 where
  pub before : KeyPool → KeyPool
  pub select_now : ℕ
  pub check_now : ℕ
  pub between : KeyPool → KeyPool
  pub recover_now : ℕ

-- What one round of the loop comes to: an answer, a sleep until an instant, or `continue`.
pub data RoundResult : Type 0 where
  answered : Attempt → RoundResult
  sleeps : KeyPool → ℕ → RoundResult
  continues : KeyPool → RoundResult

-- The round after no key was found at `check_now`.
unfoldable pub wait_round : KeyPool → RequestAttempts → ℕ → ℕ → RoundResult
wait_round p r check_now recover_now = elim (earliest_recovery p r recover_now) [
  | none ↦ answered (record { result = unavailable 0; pool = p; attempts = r })
  | some earliest ↦
      if leb r.deadline check_now
      then answered (record { result = unavailable (earliest - check_now); pool = p; attempts = r })
      else if leb earliest check_now
      then continues p
      else sleeps p (min earliest r.deadline)
]

unfoldable pub next_round : KeyPool → RequestAttempts → Round → RoundResult
unfolding wait_round
next_round p r round =
    let p' = round.before p in
    elim (try_select_unused p' r round.select_now) [
      | some (sel, p'') ↦
          answered
            (record { result = selected sel; pool = p''; attempts = push_used r sel.fingerprint })
      | none ↦
          if has_unused r
          then wait_round (round.between p') r round.check_now round.recover_now
          else answered (record { result = exhausted; pool = p'; attempts = r })
    ]

-- The loop over the rounds that the schedule grants; it is still pending when they run out.
pub data Progress : Type 0 where
  done : Attempt → Progress
  pending : KeyPool → Progress

unfoldable pub next_loop : List Round → KeyPool → RequestAttempts → Progress
unfolding next_round
next_loop [] p r = pending p
next_loop (round ∷ rounds) p r = elim (next_round p r round) [
  | answered a ↦ done a
  | sleeps p' until ↦ next_loop rounds p' r
  | continues p' ↦ next_loop rounds p' r
]

unfoldable pub next : List Round → KeyPool → RequestAttempts → Progress
unfolding next_loop
next rounds p r =
    if leb r.max_keys (length r.used)
    then done (record { result = exhausted; pool = p; attempts = r })
    else next_loop rounds p r
