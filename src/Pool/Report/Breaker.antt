-- ===== src/Pool/Report/Breaker.antt =====
-- The circuit breaker of src/pool.rs: network failures in a row.
use orihsus.Prelude.{ℕ, ◌+◌, ◌<◌, ◌≡◌, refl, ◌∙◌, true, none, some, arith, List, [], ◌∷◌, length}
use orihsus.Pool.Policy.{PoolPolicy, deadline_after}
use orihsus.Pool.Jitter.{Jitter}
use orihsus.Pool.Entry.{KeyEntry, circuit_breaker}
use orihsus.Pool.Report.{network, u32_mod, fail}

-- The entry after network failures reported at the given instants, by the given selections.
unfoldable pub failures : PoolPolicy → Jitter → List (ℕ × ℕ) → KeyEntry → KeyEntry
failures policy j [] e = e
failures policy j ((now, id) ∷ rest) e =
    failures policy j rest (fail policy j now id network e).entry

-- An entry that has counted `n` failures, and is as `e` in all that the breaker changes.
record Counted (n : ℕ) (e e' : KeyEntry) : Type 0 where
  count : e'.consecutive_failures ≡ n
  same_deadline : e'.cooling_until ≡ e.cooling_until
  same_mark : e'.half_open ≡ e.half_open

one_failure :
    (policy : PoolPolicy) (j : Jitter) (now id n : ℕ) (e e' : KeyEntry)
    → policy.breaker_threshold < u32_mod
    → n + 1 < policy.breaker_threshold
    → Counted n e e'
    → Counted (n + 1) e (fail policy j now id network e').entry
unfolding fail
one_failure policy j now id n e e' fits below c = ground arith

below_threshold :
    (policy : PoolPolicy) (j : Jitter) (reports : List (ℕ × ℕ)) (n m : ℕ) (e e' : KeyEntry)
    → policy.breaker_threshold < u32_mod
    → m ≡ n + length reports
    → m < policy.breaker_threshold
    → Counted n e e'
    → Counted m e (failures policy j reports e')
unfolding failures
below_threshold policy j [] n m e e' fits total below c = record {
  count = omega (arith, c.count);
  same_deadline = c.same_deadline;
  same_mark = c.same_mark;
}
below_threshold policy j ((now, id) ∷ rest) n m e e' fits total below c =
    below_threshold policy j rest (n + 1) m e (fail policy j now id network e').entry fits
      (omega arith) below (one_failure policy j now id n e e' fits (omega arith) c)

tripping_failure :
    (policy : PoolPolicy) (j : Jitter) (now id n : ℕ) (e e' : KeyEntry)
    → n + 1 ≡ policy.breaker_threshold
    → policy.breaker_threshold < u32_mod
    → e.cooling_until ≡ none
    → Counted n e e'
    → let tripped = (fail policy j now id network e').entry in
      (tripped.cooling_until ≡ some (deadline_after now policy.breaker_cooldown))
      × (tripped.cooling_reason ≡ some circuit_breaker)
      × (tripped.half_open ≡ true)
      × (tripped.consecutive_failures ≡ 0)
unfolding fail
tripping_failure policy j now id n e e' reached fits idle c = ground arith

-- From a key without a cooldown and without a counted failure, network failures in a row that stay
-- one below the threshold leave it without a cooldown and its recovering mark as it was. One more
-- cools it for the breaker cooldown, marks it as recovering and starts the count again. The threshold
-- is a 32-bit number.
pub breaker_trips_at_threshold :
    (policy : PoolPolicy) (j : Jitter) (reports : List (ℕ × ℕ)) (now id : ℕ) (e : KeyEntry)
    → policy.breaker_threshold < u32_mod
    → length reports + 1 ≡ policy.breaker_threshold
    → e.consecutive_failures ≡ 0
    → e.cooling_until ≡ none
    → let waiting = failures policy j reports e in
      let tripped = (fail policy j now id network waiting).entry in
      (waiting.cooling_until ≡ none)
      × (waiting.half_open ≡ e.half_open)
      × (tripped.cooling_until ≡ some (deadline_after now policy.breaker_cooldown))
      × (tripped.cooling_reason ≡ some circuit_breaker)
      × (tripped.half_open ≡ true)
      × (tripped.consecutive_failures ≡ 0)
breaker_trips_at_threshold policy j reports now id e fits reached none_yet idle =
    let start : Counted 0 e e = record {
      count = none_yet;
      same_deadline = refl;
      same_mark = refl;
    } in
    let c =
      below_threshold policy j reports 0 (length reports) e e fits (omega arith) (omega arith)
        start in
    let (until, reason, mark, count) =
      tripping_failure policy j now id (length reports) e (failures policy j reports e) reached fits
        idle c in
    (c.same_deadline ∙ idle, c.same_mark, until, reason, mark, count)
