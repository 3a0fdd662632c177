-- ===== src/Config/Limits/Bounds.antt =====
-- What the limits of src/config.rs satisfy once they are accepted.
use orihsus.Prelude.{ℕ, ◌<◌, ◌≤◌, ◌≡◌, Option, ok, arith}
use orihsus.Config.Types.{Limits}
use orihsus.Config.Raw.{RawLimits}
use orihsus.Config.Limits.{u32_max, load_limits}

pub record LimitsAreValid (max_permits : ℕ) (l : Limits) : Type 0 where
  pub some_request : 0 < l.max_concurrency
  pub concurrency_permits : l.max_concurrency ≤ max_permits
  pub queue_permits : l.max_queue ≤ max_permits
  pub some_wait : 0 < l.queue_wait_timeout
  pub some_body : 0 < l.max_body_bytes
  pub body_in_budget : l.max_body_bytes ≤ l.max_inflight_body_bytes
  pub budget_fits : l.max_inflight_body_bytes ≤ u32_max

pub load_limits-valid :
    (max_permits : ℕ) (raw : Option RawLimits) {l : Limits}
    → load_limits max_permits raw ≡ ok l
    → LimitsAreValid max_permits l
unfolding load_limits
load_limits-valid max_permits raw loaded = ground arith
