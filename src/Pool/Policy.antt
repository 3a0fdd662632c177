-- ===== src/Pool/Policy.antt =====
-- `PoolPolicy`, its validation, `PoolError`, and the exponential backoff of src/pool.rs.
pub mod Backoff
use orihsus.Prelude.{
  ℕ, zero, suc, ◌+◌, ◌*◌, ◌≤◌, ◌<◌, ◌≡◌, min, String, Bool, not, ◌&&◌, ◌||◌, Result, ok, err, ◌>>=◌,
  ◌>>◌, reject, arith, ltb, leb, ◌==◌, if◌then◌else◌,
}
use orihsus.Time.{from_secs, saturating_mul}

-- The tuning knobs. Durations are in nanoseconds.
pub record PoolPolicy : Type 0 where
  pub backoff_initial : ℕ
  pub backoff_max : ℕ
  pub breaker_threshold : ℕ
  pub breaker_cooldown : ℕ
  pub wait_timeout : ℕ
  pub max_attempts : ℕ

pub data PoolError : Type 0 where
  empty_keys : PoolError
  invalid_policy : String → PoolError

unfoldable pub validate : PoolPolicy → Result (Unit {0}) PoolError
validate p = do
  reject (p.backoff_initial == 0) (invalid_policy "backoff_initial must be greater than zero")
  reject (ltb p.backoff_max p.backoff_initial)
      (invalid_policy "backoff_max must be >= backoff_initial")
  reject (p.breaker_threshold == 0) (invalid_policy "breaker_threshold must be at least 1")
  reject (p.breaker_cooldown == 0) (invalid_policy "breaker_cooldown must be greater than zero")
  reject (p.wait_timeout == 0) (invalid_policy "wait_timeout must be greater than zero")
  reject (not (leb 1 p.max_attempts && leb p.max_attempts 2))
      (invalid_policy "max_attempts must be 1 or 2")
  ok tt

-- `WAIT_TIMEOUT` and `MAX_COOLDOWN`.
abbrev pub wait_timeout_default : ℕ
wait_timeout_default = from_secs 30

abbrev pub max_cooldown : ℕ
max_cooldown = from_secs (90 * 24 * 3600)

-- `now.checked_add(cooldown.min(MAX_COOLDOWN))`; Policy/Backoff treats the `expect` behind it.
unfoldable pub deadline_after : ℕ → ℕ → ℕ
deadline_after now cooldown = now + min cooldown max_cooldown

-- The rounds of the loop in `backoff_at`, with its early exit.
backoff_rounds : PoolPolicy → ℕ → ℕ → ℕ
backoff_rounds p zero d = d
backoff_rounds p (suc rounds) d =
    let next = backoff_rounds p rounds (min (saturating_mul d 2) p.backoff_max) in
    if leb p.backoff_max d then d else next

unfoldable pub backoff_at : PoolPolicy → ℕ → ℕ
unfolding backoff_rounds
backoff_at p step = min (backoff_rounds p (min step 20) p.backoff_initial) p.backoff_max
