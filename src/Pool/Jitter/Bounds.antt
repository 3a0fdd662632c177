-- ===== src/Pool/Jitter/Bounds.antt =====
-- How far the jitter of src/pool.rs moves a delay.
use orihsus.Prelude.{ℕ, ◌+◌, ◌-◌, ◌/◌, ◌%◌, ◌≤◌, ◌<◌, min, arith}
use native.Mathlib.Nat.{mod-lt}
use orihsus.Time.{duration_max}
use orihsus.Pool.Jitter.{Jitter, no_jitter, uniform_jitter, next_u64, offset_below, jitter, u64_mod}

offset_below-le : (half random : ℕ) → half < u64_mod → offset_below half random ≤ half
unfolding offset_below
offset_below-le half random h =
    omega (arith, mod-lt random {m = min (half + 1) (u64_mod - 1)} (omega arith))

-- Either jitter keeps a duration, one that `Duration` can hold, at least as long as it was, and adds at most half of it.
pub jitter_bounds :
    (j : Jitter) (base : ℕ)
    → base ≤ duration_max
    → (base ≤ (jitter j base).0) × ((jitter j base).0 ≤ min (base + base / 2) duration_max)
unfolding jitter
jitter_bounds no_jitter base h = (omega arith, omega arith)
jitter_bounds (uniform_jitter g) base h =
    let fits = offset_below-le (base / 2 % u64_mod) (next_u64 g).0 (omega arith) in
    (omega (arith, fits), omega (arith, fits))
