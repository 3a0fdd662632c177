-- ===== src/Pool/Wait/Rounds.antt =====
-- One round of the loop of `next` in src/pool.rs, after no key was found.
use orihsus.Prelude.{
  ℕ, ◌-◌, ◌<◌, ◌≤◌, ◌≡◌, ◌⊎◌, inl, inr, min, some, List, [], ◌∷◌, All, ltb, leb, Bool-cases,
  Option-cases, arith,
}
use orihsus.Pool.Entry.{find_entry}
use orihsus.Pool.State.{KeyPool}
use orihsus.Pool.Attempts.{RequestCandidate, RequestAttempts, unavailable}
use orihsus.Pool.Wait.{
  recovery_of, recovery_times, minimum, earliest_recovery, answered, sleeps, wait_round,
}

times_ahead :
    (p : KeyPool) (r : RequestAttempts) (now : ℕ) (cs : List RequestCandidate)
    → All (λ d. now < d) (recovery_times p r now cs)
unfolding recovery_times
times_ahead p r now [] = tt
times_ahead p r now (c ∷ cs) = elim (Option-cases (find_entry c.fingerprint p.entries)) [
  | inl absent ↦ rw (absent, recovery_times) (times_ahead p r now cs)
  | inr (e, found) ↦ elim (Option-cases (recovery_of r e)) [
    | inl never ↦ rw (found, recovery_times, never) (times_ahead p r now cs)
    | inr (d, at) ↦ elim (Bool-cases (ltb now d)) [
      | inl ahead ↦ rw (found, recovery_times, at, ahead) (ground arith, times_ahead p r now cs)
      | inr past ↦ rw (found, recovery_times, at, past) (times_ahead p r now cs)
    ]
  ]
]

minimum-ahead :
    (now : ℕ) (ds : List ℕ) {m : ℕ} → All (λ d. now < d) ds → minimum ds ≡ some m → now < m
unfolding minimum
minimum-ahead now [] h e = cc
minimum-ahead now (d ∷ ds) h e = elim (Option-cases (minimum ds)) [
  | inl alone ↦ ground arith
  | inr (x, at) ↦ let below = minimum-ahead now ds h.1 at in ground arith
]

-- A recovery that the loop waits for is always ahead.
pub earliest_recovery-ahead :
    (p : KeyPool) (r : RequestAttempts) (now : ℕ) {d : ℕ}
    → earliest_recovery p r now ≡ some d
    → now < d
unfolding earliest_recovery
earliest_recovery-ahead p r now e = minimum-ahead now _ (times_ahead p r now r.candidates) e

-- On a clock that does not go back, the waiting part of a round reports a wait for the request as it is, or sleeps to an instant
-- ahead and no later than the deadline of the request. It never goes round without a sleep.
pub wait_round_lem :
    (p : KeyPool) (r : RequestAttempts) (check_now recover_now : ℕ)
    → check_now ≤ recover_now
    → ((retry_after : ℕ) × (wait_round p r check_now recover_now
          ≡ answered (record { result = unavailable retry_after; pool = p; attempts = r })))
      ⊎ ((until : ℕ) × (wait_round p r check_now recover_now ≡ sleeps p until)
          × (check_now < until)
          × (until ≤ r.deadline)
          × (check_now < r.deadline))
unfolding wait_round
wait_round_lem p r check_now recover_now le =
    elim (Option-cases (earliest_recovery p r recover_now)) [
      | inl nothing ↦ inl (0, rw (nothing, wait_round))
      | inr (d, at) ↦
          let ahead = earliest_recovery-ahead p r recover_now at in
          elim (Bool-cases (leb r.deadline check_now)) [
            | inl over ↦ inl (d - check_now, rw (at, wait_round, over))
            | inr left ↦ inr (
              min d r.deadline,
              ground (arith, ahead, at),
              ground arith,
              omega arith,
              ground arith,
            )
          ]
    ]
