-- ===== src/Pool/Wait/Calls.antt =====
-- The calls of one request of src/pool.rs in a row: `next` and `next_immediate`, in any order.
use mathlib.Core.Path.{subst}
use mathlib.Core.List.{append-nil, append_assoc}
use orihsus.Prelude.{
  NoRepeat, ℕ, ◌<◌, ◌≤◌, ◌≡◌, refl, sym, ap, ◌∙◌, ◌++◌, inl, inr, String, Option, List, [], ◌∷◌,
  length, ok, leb, Bool-cases, Option-cases, arith,
}
use orihsus.Pool.Policy.{PoolPolicy, validate}
use orihsus.Pool.State.{KeyPool}
use orihsus.Pool.Attempts.{
  RequestAttempts, AttemptResult, selected, unavailable, exhausted, request_with_model,
  try_select_unused, has_unused, next_immediate,
}
use orihsus.Pool.Attempts.Budget.{
  InBudget, push_used-InBudget, selected_fresh, next_immediate-InBudget,
}
use orihsus.Pool.Wait.Grows.{grown, ProgressGrows, next-Grows, next_immediate-Grows}
use orihsus.Pool.Wait.{
  Round, RoundResult, answered, sleeps, continues, earliest_recovery, wait_round, next_round,
  Progress, done, pending, next_loop, next,
}

-- A call with the pool that it meets; `waiting` brings the rounds that its loop is granted.
pub data Call : Type 0 where
  immediately : KeyPool → ℕ → Call
  waiting : KeyPool → List Round → Call

abbrev pub attempts_of : RequestAttempts → Progress → RequestAttempts
attempts_of r (done a) = a.attempts
attempts_of r (pending p) = r

unfoldable pub after_calls : RequestAttempts → List Call → RequestAttempts
after_calls r [] = r
after_calls r (immediately p now ∷ calls) = after_calls (next_immediate p r now).attempts calls
after_calls r (waiting p rounds ∷ calls) = after_calls (attempts_of r (next rounds p r)) calls

module _ (limit : ℕ) where
  abbrev Answers : RoundResult → Type 0
  Answers (answered a) = InBudget limit a.attempts
  Answers (sleeps p until) = Unit
  Answers (continues p) = Unit

  wait_round-Answers :
      (p : KeyPool) (r : RequestAttempts) (check_now recover_now : ℕ)
      → InBudget limit r
      → Answers (wait_round p r check_now recover_now)
  unfolding wait_round
  wait_round-Answers p r check_now recover_now b =
      elim (Option-cases (earliest_recovery p r recover_now)) [
        | inl nothing ↦ rw (nothing, wait_round) b
        | inr (d, at) ↦ elim (Bool-cases (leb r.deadline check_now)) [
          | inl over ↦ rw (at, wait_round, over) b
          | inr left ↦ elim (Bool-cases (leb d check_now)) [
            | inl again ↦ rw (at, wait_round, left, again) tt
            | inr sleep ↦ rw (at, wait_round, left, sleep) tt
          ]
        ]
      ]

  next_round-Answers :
      (p : KeyPool) (r : RequestAttempts) (round : Round)
      → InBudget limit r
      → length r.used < limit
      → Answers (next_round p r round)
  unfolding next_round
  next_round-Answers p r round b room =
      elim (Option-cases (try_select_unused (round.before p) r round.select_now)) [
        | inr ((sel, p'), chosen) ↦
            rw (chosen, next_round)
              (push_used-InBudget limit r sel.fingerprint b room
                (selected_fresh (round.before p) r round.select_now chosen))
        | inl nothing ↦ elim (Bool-cases (has_unused r)) [
          | inr spent ↦ rw (nothing, next_round, spent) b
          | inl left ↦ rw (nothing, next_round, left) (wait_round-Answers _ r _ _ b)
        ]
      ]

  -- One result of a round, and the rest of the loop after it.
  proceed :
      (r : RequestAttempts) (x : RoundResult) (rest : KeyPool → RequestAttempts → Progress)
      → Answers x
      → ((q : KeyPool) → InBudget limit (attempts_of r (rest q r)))
      → InBudget limit (
          attempts_of r (elim x [
            | answered a ↦ done a
            | sleeps p' until ↦ rest p' r
            | continues p' ↦ rest p' r
          ]))
  proceed r (answered a) rest h k = h
  proceed r (sleeps p' until) rest h k = k p'
  proceed r (continues p') rest h k = k p'

  loop-InBudget :
      (rounds : List Round) (p : KeyPool) (r : RequestAttempts)
      → InBudget limit r
      → length r.used < limit
      → InBudget limit (attempts_of r (next_loop rounds p r))
  unfolding next_loop
  loop-InBudget [] p r b room = b
  loop-InBudget (round ∷ rounds) p r b room =
      proceed r (next_round p r round) (next_loop rounds) (next_round-Answers p r round b room)
        (λ q. loop-InBudget rounds q r b room)

  pub next-InBudget :
      (rounds : List Round) (p : KeyPool) (r : RequestAttempts)
      → InBudget limit r
      → InBudget limit (attempts_of r (next rounds p r))
  unfolding next
  next-InBudget rounds p r b = elim (Bool-cases (leb r.max_keys (length r.used))) [
    | inl spent ↦ rw spent b
    | inr left ↦ rw left (loop-InBudget rounds p r b (ground (arith, b.same_limit)))
  ]

  calls-InBudget :
      (r : RequestAttempts) (calls : List Call)
      → InBudget limit r
      → InBudget limit (after_calls r calls)
  unfolding after_calls
  calls-InBudget r [] b = b
  calls-InBudget r (immediately p now ∷ calls) b =
      calls-InBudget (next_immediate p r now).attempts calls
        (next_immediate-InBudget limit p r now b)
  calls-InBudget r (waiting p rounds ∷ calls) b =
      calls-InBudget (attempts_of r (next rounds p r)) calls (next-InBudget rounds p r b)

pub max_attempts-le : (policy : PoolPolicy) → validate policy ≡ ok tt → policy.max_attempts ≤ 2
unfolding validate
max_attempts-le policy valid = ground arith

-- The key that an answer gives, before those of the later calls.
abbrev given_before : AttemptResult → List String → List String
given_before (selected sel) later = sel.fingerprint ∷ later
given_before (unavailable d) later = later
given_before exhausted later = later

abbrev given_in : Progress → List String → List String
given_in (done a) later = given_before a.result later
given_in (pending p) later = later

-- The keys that the calls of a request are answered with, in their order.
unfoldable pub keys_given : RequestAttempts → List Call → List String
unfolding next_immediate next
keys_given r [] = []
keys_given r (immediately p now ∷ calls) =
    let a = next_immediate p r now in given_before a.result (keys_given a.attempts calls)
keys_given r (waiting p rounds ∷ calls) =
    let x = next rounds p r in given_in x (keys_given (attempts_of r x) calls)

-- The used keys, with one that is given and those of later calls.
used_grown :
    (r r' : RequestAttempts) (x : AttemptResult) (later all : List String)
    → r' ≡ grown r x
    → all ≡ r'.used ++ later
    → all ≡ r.used ++ given_before x later
used_grown r r' (selected sel) later all grows rest =
    rest ∙ ap (λ q. q.used ++ later) grows ∙ append_assoc r.used (sel.fingerprint ∷ []) later
used_grown r r' (unavailable d) later all grows rest = rest ∙ ap (λ q. q.used ++ later) grows
used_grown r r' exhausted later all grows rest = rest ∙ ap (λ q. q.used ++ later) grows

progress_grown :
    (r : RequestAttempts) (x : Progress) (later all : List String)
    → ProgressGrows r x
    → all ≡ (attempts_of r x).used ++ later
    → all ≡ r.used ++ given_in x later
progress_grown r (done a) later all grows rest =
    used_grown r a.attempts a.result later all grows rest
progress_grown r (pending p) later all grows rest = rest

-- What is given is used, and nothing else is.
given-used :
    (r : RequestAttempts) (calls : List Call)
    → (after_calls r calls).used ≡ r.used ++ keys_given r calls
unfolding after_calls keys_given
given-used r [] = sym (append-nil r.used)
given-used r (immediately p now ∷ calls) =
    used_grown r (next_immediate p r now).attempts (next_immediate p r now).result _ _
      (next_immediate-Grows p r now).0 (given-used (next_immediate p r now).attempts calls)
given-used r (waiting p rounds ∷ calls) =
    progress_grown r (next rounds p r) _ _ (next-Grows rounds p r)
      (given-used (attempts_of r (next rounds p r)) calls)

-- However a request calls for keys, it is answered with at most `max_attempts` keys of a valid
-- policy, that is at most two, and never with one key twice; and its record of used keys is that of
-- the keys it was given, in their order.
pub calls_budget :
    (p : KeyPool) (now : ℕ) (model : Option String) (calls : List Call)
    → validate p.policy ≡ ok tt
    → let r = request_with_model p now model in
      let given = keys_given r calls in
      (length given ≤ p.policy.max_attempts)
      × (length given ≤ 2)
      × NoRepeat given
      × ((after_calls r calls).used ≡ given)
unfolding request_with_model
calls_budget p now model calls valid =
    let r = request_with_model p now model in
    let used : (after_calls r calls).used ≡ keys_given r calls = given-used r calls in
    let b =
      calls-InBudget p.policy.max_attempts r calls
        (record { same_limit = refl; within = omega arith; distinct = tt }) in
    let few = subst (λ us. length us ≤ p.policy.max_attempts) used b.within in
    (few, omega (arith, few, max_attempts-le p.policy valid), subst NoRepeat used b.distinct, used)
