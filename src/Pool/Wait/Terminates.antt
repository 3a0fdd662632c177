-- ===== src/Pool/Wait/Terminates.antt =====
-- `next` of src/pool.rs comes to an answer.
use orihsus.Prelude.{
  ℕ, zero, suc, ◌+◌, ◌-◌, ◌<◌, ◌≤◌, ◌≡◌, ◌⊎◌, inl, inr, List, [], ◌∷◌, length, leb, Bool-cases,
  Option-cases, arith,
}
use orihsus.Pool.State.{KeyPool}
use orihsus.Pool.Attempts.{
  RequestAttempts, Attempt, exhausted, selected, unavailable, push_used, try_select_unused,
  has_unused,
}
use orihsus.Pool.Wait.{
  Round, RoundResult, answered, sleeps, continues, next_round, done, next_loop, next,
}
use orihsus.Pool.Wait.Rounds.{wait_round_lem}

-- The next round begins no earlier than at `t`.
abbrev pub Wakes : ℕ → List Round → Type 0
Wakes t [] = Unit
Wakes t (round ∷ rounds) = t ≤ round.select_now

-- What is asked of the rounds after one that came to a result: a sleep lasts until its instant.
abbrev Resumes : List Round → (KeyPool → Type 0) → ℕ → RoundResult → Type 0
Resumes rounds Later now (answered a) = Unit
Resumes rounds Later now (sleeps p until) = Wakes until rounds × Later p
Resumes rounds Later now (continues p) = Wakes now rounds × Later p

-- The clock does not go back within a round, and a sleep lasts until the instant that was asked for.
abbrev pub Timely : List Round → KeyPool → RequestAttempts → Type 0
Timely [] p r = Unit
Timely (round ∷ rounds) p r =
    (round.select_now ≤ round.check_now)
    × (round.check_now ≤ round.recover_now)
    × Resumes rounds (λ q. Timely rounds q r) round.recover_now (next_round p r round)

next_round_cases :
    (p : KeyPool) (r : RequestAttempts) (round : Round)
    → round.check_now ≤ round.recover_now
    → ((a : Attempt) × (next_round p r round ≡ answered a))
      ⊎ ((q : KeyPool) × (until : ℕ) × (next_round p r round ≡ sleeps q until)
          × (round.check_now < until)
          × (round.check_now < r.deadline))
unfolding next_round
next_round_cases p r round le =
    elim (Option-cases (try_select_unused (round.before p) r round.select_now)) [
      | inr ((sel, p'), chosen) ↦ inl (
        record { result = selected sel; pool = p'; attempts = push_used r sel.fingerprint },
        rw (chosen, next_round),
      )
      | inl nothing ↦ elim (Bool-cases (has_unused r)) [
        | inr spent ↦ inl (
          record { result = exhausted; pool = round.before p; attempts = r },
          rw (nothing, next_round, spent),
        )
        | inl left ↦
            elim (wait_round_lem (round.between (round.before p)) r round.check_now
              round.recover_now le) [
                | inl (retry_after, answer) ↦ inl (
                  record {
                    result = unavailable retry_after;
                    pool = round.between (round.before p);
                    attempts = r;
                  },
                  rw (nothing, next_round, left, answer),
                )
                | inr (until, sleep, ahead, _, early) ↦ inr (
                  round.between (round.before p),
                  until,
                  rw (nothing, next_round, left, sleep),
                  ahead,
                  early,
                )
              ]
      ]
    ]

-- The schedule after a sleep.
resumed :
    (rounds : List Round) (p : KeyPool) {q : KeyPool} (r : RequestAttempts) (round : Round)
    {until : ℕ}
    → next_round p r round ≡ sleeps q until
    → Resumes rounds (λ q. Timely rounds q r) round.recover_now (next_round p r round)
    → Wakes until rounds × Timely rounds q r
resumed rounds p r round sleep resume = rw sleep at resume

loop_terminates :
    (n : ℕ) (rounds : List Round) (p : KeyPool) (r : RequestAttempts) (start : ℕ)
    → length rounds ≡ suc n
    → r.deadline < start + n + 1
    → Wakes start rounds
    → Timely rounds p r
    → (a : Attempt) × (next_loop rounds p r ≡ done a)
unfolding next_loop
loop_terminates n [] p r start len fuel wake timely = absurd (omega arith)
loop_terminates zero (round ∷ rounds) p r start len fuel wake (forward, le, resume) =
    elim (next_round_cases p r round le) [
      | inl (a, answer) ↦ (a, rw (answer, next_loop))
      | inr (q, until, sleep, ahead, early) ↦ absurd (omega arith)
    ]
loop_terminates (suc n) (round ∷ rounds) p r start len fuel wake (forward, le, resume) =
    elim (next_round_cases p r round le) [
      | inl (a, answer) ↦ (a, rw (answer, next_loop))
      | inr (q, until, sleep, ahead, early) ↦
          let (wake', timely') = resumed rounds p r round sleep resume in
          rw (sleep, next_loop)
            (loop_terminates n rounds q r until (omega arith) (omega arith) wake' timely')
    ]

-- Whatever other tasks do to the pool meanwhile, `next` comes to an answer: on a clock that runs
-- forward, with sleeps that last as asked, it needs at most one round for each nanosecond from the
-- start of its first round to its deadline, and one more.
pub next_terminates :
    (rounds : List Round) (p : KeyPool) (r : RequestAttempts) (start : ℕ)
    → r.deadline < start + length rounds
    → 0 < length rounds
    → Wakes start rounds
    → Timely rounds p r
    → (a : Attempt) × (next rounds p r ≡ done a)
unfolding next
next_terminates rounds p r start fuel some_round wake timely =
    elim (Bool-cases (leb r.max_keys (length r.used))) [
      | inl spent ↦ (record { result = exhausted; pool = p; attempts = r }, rw spent)
      | inr left ↦ rw left (
          loop_terminates (length rounds - 1) rounds p r start (omega arith) (omega arith) wake
            timely)
    ]
