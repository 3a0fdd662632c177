-- ===== src/Pool/Policy/Backoff.antt =====
-- The backoff loop of src/pool.rs against its closed form, and the addition that its caller makes.
use native.Mathlib.Nat.{pow-suc}
use native.Mathlib.Decide.{dec_le}
use orihsus.Prelude.{
  ℕ, zero, suc, some, ◌+◌, ◌*◌, ◌^◌, ◌≤◌, ◌≡◌, ap, ◌∙◌, min, inl, inr, arith, leb, Bool-cases,
}
use orihsus.Time.{duration_max, instant_max, checked_add}
use orihsus.Pool.Policy.{PoolPolicy, backoff_rounds, backoff_at, max_cooldown, deadline_after}

pow_pos : (n : ℕ) → 1 ≤ 2 ^ n
pow_pos zero = omega arith
pow_pos (suc n) = omega (arith, pow-suc 2 n, pow_pos n)

capped : (d m n : ℕ) → m ≤ d → min d m ≡ min (d * 2 ^ n) m
capped d m n h = let grown : d * 1 ≤ d * 2 ^ n = grind (arith, pow_pos n) in omega arith

doubled :
    (d m n : ℕ)
    → m ≤ duration_max
    → min (min (min (d * 2) duration_max) m * 2 ^ n) m ≡ min (d * 2 ^ suc n) m
doubled d m n h = elim (dec_le (d * 2) m) [
  | yes fits ↦
      let same : min (min (d * 2) duration_max) m ≡ d * 2 = omega arith in
      rw same (omega (arith, pow-suc 2 n, ap (λ (t : ℕ). d * t) (pow-suc 2 n)))
  | no over ↦
      let same : min (min (d * 2) duration_max) m ≡ m = omega arith in
      let grown : d * 2 * 1 ≤ d * 2 * 2 ^ n = grind (arith, pow_pos n) in
      rw same (
        omega (
          arith,
          capped m m n (omega arith),
          grown,
          pow-suc 2 n,
          ap (λ (t : ℕ). d * t) (pow-suc 2 n),
        ))
]

rounds_lem :
    (p : PoolPolicy) (n d : ℕ)
    → p.backoff_max ≤ duration_max
    → min (backoff_rounds p n d) p.backoff_max ≡ min (d * 2 ^ n) p.backoff_max
unfolding backoff_rounds
rounds_lem p zero d h = omega arith
rounds_lem p (suc n) d h = elim (Bool-cases (leb p.backoff_max d)) [
  | inl reached ↦ rw reached (capped d p.backoff_max (suc n) (ground arith))
  | inr below ↦ rw below (rounds_lem p n _ h ∙ doubled d p.backoff_max n h)
]

-- With a cap that `Duration` can hold, the delay of step `k` is the initial backoff doubled `k` times, at most 20 times, and capped.
pub backoff_at_lem :
    (p : PoolPolicy) (step : ℕ)
    → p.backoff_max ≤ duration_max
    → backoff_at p step ≡ min (p.backoff_initial * 2 ^ min step 20) p.backoff_max
unfolding backoff_at
backoff_at_lem p step h = rounds_lem p (min step 20) p.backoff_initial h

-- On a clock that is `MAX_COOLDOWN` or more before the last instant, the checked addition of a
-- cooldown clamped to `MAX_COOLDOWN` succeeds, whatever the cooldown, and the deadline is its result:
-- at least `now` and at most `MAX_COOLDOWN` ahead.
pub deadline_after_lem :
    (now cooldown : ℕ)
    → now + max_cooldown ≤ instant_max
    → (checked_add now (min cooldown max_cooldown) ≡ some (deadline_after now cooldown))
      × (now ≤ deadline_after now cooldown)
      × (deadline_after now cooldown ≤ now + max_cooldown)
unfolding deadline_after checked_add
deadline_after_lem now cooldown h = (ground arith, omega arith, omega arith)
