-- ===== src/Pool/Wait/Grows.antt =====
-- What the calls for a key in src/pool.rs make of the request's record of used keys.
use orihsus.Prelude.{ℕ, ◌≡◌, refl, inl, inr, List, [], ◌∷◌, length, leb, Bool-cases, Option-cases}
use orihsus.Pool.State.{KeyPool}
use orihsus.Pool.Attempts.{
  RequestAttempts, AttemptResult, selected, unavailable, exhausted, Attempt, push_used,
  try_select_unused, has_unused, next_immediate,
}
use orihsus.Pool.Wait.{
  Round, RoundResult, answered, sleeps, continues, earliest_recovery, wait_round, next_round,
  Progress, done, pending, next_loop, next,
}

-- A key that is given is used from then on, and nothing else changes.
abbrev pub grown : RequestAttempts → AttemptResult → RequestAttempts
grown r (selected sel) = push_used r sel.fingerprint
grown r (unavailable d) = r
grown r exhausted = r

abbrev pub Grows : RequestAttempts → Attempt → Type 0
Grows r a = a.attempts ≡ grown r a.result

abbrev pub ProgressGrows : RequestAttempts → Progress → Type 0
ProgressGrows r (done a) = Grows r a
ProgressGrows r (pending p) = Unit

abbrev RoundGrows : RequestAttempts → RoundResult → Type 0
RoundGrows r (answered a) = Grows r a
RoundGrows r (sleeps p until) = Unit
RoundGrows r (continues p) = Unit

wait_round-Grows :
    (p : KeyPool) (r : RequestAttempts) (check_now recover_now : ℕ)
    → RoundGrows r (wait_round p r check_now recover_now)
unfolding wait_round
wait_round-Grows p r check_now recover_now =
    elim (Option-cases (earliest_recovery p r recover_now)) [
      | inl nothing ↦ rw (nothing, wait_round) refl
      | inr (d, at) ↦ elim (Bool-cases (leb r.deadline check_now)) [
        | inl over ↦ rw (at, wait_round, over) refl
        | inr left ↦ elim (Bool-cases (leb d check_now)) [
          | inl again ↦ rw (at, wait_round, left, again) tt
          | inr sleep ↦ rw (at, wait_round, left, sleep) tt
        ]
      ]
    ]

next_round-Grows :
    (p : KeyPool) (r : RequestAttempts) (round : Round) → RoundGrows r (next_round p r round)
unfolding next_round
next_round-Grows p r round =
    elim (Option-cases (try_select_unused (round.before p) r round.select_now)) [
      | inr ((sel, p'), chosen) ↦ rw (chosen, next_round) refl
      | inl nothing ↦ elim (Bool-cases (has_unused r)) [
        | inr spent ↦ rw (nothing, next_round, spent) refl
        | inl left ↦ rw (nothing, next_round, left) (wait_round-Grows _ r _ _)
      ]
    ]

after_round :
    (r : RequestAttempts) (x : RoundResult) (rest : KeyPool → Progress)
    → RoundGrows r x
    → ((q : KeyPool) → ProgressGrows r (rest q))
    → ProgressGrows r
        (elim x [ answered a ↦ done a | sleeps p' until ↦ rest p' | continues p' ↦ rest p' ])
after_round r (answered a) rest h k = h
after_round r (sleeps p' until) rest h k = k p'
after_round r (continues p') rest h k = k p'

next_loop-Grows :
    (rounds : List Round) (p : KeyPool) (r : RequestAttempts)
    → ProgressGrows r (next_loop rounds p r)
unfolding next_loop
next_loop-Grows [] p r = tt
next_loop-Grows (round ∷ rounds) p r =
    after_round r (next_round p r round) (λ q. next_loop rounds q r) (next_round-Grows p r round)
      (λ q. next_loop-Grows rounds q r)

pub next-Grows :
    (rounds : List Round) (p : KeyPool) (r : RequestAttempts) → ProgressGrows r (next rounds p r)
unfolding next
next-Grows rounds p r = elim (Bool-cases (leb r.max_keys (length r.used))) [
  | inl spent ↦ rw spent refl
  | inr left ↦ rw left (next_loop-Grows rounds p r)
]

-- Without a wait there is a key or none.
abbrev pub IsPrompt : AttemptResult → Type 0
IsPrompt (selected sel) = Unit
IsPrompt (unavailable d) = ⊥
IsPrompt exhausted = Unit

pub next_immediate-Grows :
    (p : KeyPool) (r : RequestAttempts) (now : ℕ)
    → Grows r (next_immediate p r now) × IsPrompt (next_immediate p r now).result
unfolding next_immediate
next_immediate-Grows p r now = elim (Bool-cases (leb r.max_keys (length r.used))) [
  | inl spent ↦ rw spent (refl, tt)
  | inr left ↦ elim (Option-cases (try_select_unused p r now)) [
    | inl nothing ↦ rw (left, nothing) (refl, tt)
    | inr ((sel, p'), chosen) ↦ rw (left, chosen) (refl, tt)
  ]
]
