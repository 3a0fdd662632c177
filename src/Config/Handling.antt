-- ===== src/Config/Handling.antt =====
-- Key failures, usage polling, the usage history and the audit log of src/config.rs.
pub mod Bounds
use mathlib.Core.Option.{get_or}
use orihsus.Prelude.{
  ℕ, ◌*◌, ◌^◌, String, Bool, true, false, not, ◌&&◌, ◌||◌, Option, none, some, is_blank, str_eq,
  ltb, ◌==◌, if◌then◌else◌, Result, ok, err, ◌>>=◌, ◌>>◌, reject,
}
use orihsus.Time.{from_secs}
use orihsus.Float.{F64, whole, is_finite, le_f64, lt_f64}
use orihsus.Pool.Policy.{max_cooldown}
use orihsus.Config.Raw.{RawKeyFailureHandling, RawUsage, RawAudit}
use orihsus.Config.Types.{KeyFailureHandling, Usage, Audit, ConfigError, validation}
use orihsus.Config.Limits.{u32_max, seconds_or}

abbrev no_handling : RawKeyFailureHandling
no_handling = record {
  has_soft_threshold = false;
  backoff_initial_seconds = none;
  backoff_max_seconds = none;
  breaker_threshold = none;
  breaker_cooldown_seconds = none;
  max_attempts = none;
}

unfoldable pub load_key_failure_handling :
    Option RawKeyFailureHandling → Result KeyFailureHandling ConfigError
load_key_failure_handling raw = do
  let key_failure = get_or raw no_handling
  reject key_failure.has_soft_threshold (
      validation
        "key_failure_handling.soft_threshold is no longer supported; remove it from the config")
  let backoff_initial = seconds_or key_failure.backoff_initial_seconds 5
  reject (backoff_initial == 0)
      (validation "key_failure_handling.backoff_initial_seconds must be greater than zero")
  let backoff_max = seconds_or key_failure.backoff_max_seconds 60
  reject (backoff_max == 0)
      (validation "key_failure_handling.backoff_max_seconds must be greater than zero")
  reject (ltb backoff_max backoff_initial) (
      validation
        "key_failure_handling.backoff_max_seconds must be >= key_failure_handling.backoff_initial_seconds")
  reject (ltb max_cooldown backoff_max) (
      validation
        "key_failure_handling.backoff_max_seconds must be at most the ops cooldown ceiling (7776000 seconds)")
  let breaker_threshold = get_or key_failure.breaker_threshold 5
  reject (breaker_threshold == 0)
      (validation "key_failure_handling.breaker_threshold must be at least 1")
  reject (ltb u32_max breaker_threshold) (
      validation
        "key_failure_handling.breaker_threshold must fit u32 (the key pool breaker counts failures in u32)")
  let breaker_cooldown = seconds_or key_failure.breaker_cooldown_seconds 60
  reject (breaker_cooldown == 0)
      (validation "key_failure_handling.breaker_cooldown_seconds must be greater than zero")
  let max_attempts = get_or key_failure.max_attempts 2
  reject (max_attempts == 0 || ltb 2 max_attempts)
      (validation "key_failure_handling.max_attempts must be between 1 and 2")
  ok (record {
    backoff_initial = backoff_initial;
    backoff_max = backoff_max;
    breaker_threshold = breaker_threshold;
    breaker_cooldown = breaker_cooldown;
    max_attempts = max_attempts;
  })

abbrev pub threshold_of : Option RawUsage → F64
threshold_of none = whole 80
threshold_of (some r) = get_or r.soft_threshold_percent (whole 80)

unfoldable pub load_usage : Option RawUsage → Result Usage ConfigError
load_usage raw = do
  let seconds : Option ℕ = elim raw [ none ↦ none | some r ↦ r.poll_interval_seconds ]
  let threshold = threshold_of raw
  reject (not (is_finite threshold) || le_f64 threshold (whole 0) || lt_f64 (whole 100) threshold)
      (validation "usage.soft_threshold_percent must be finite and in (0, 100]")
  let poll_interval = seconds_or seconds (5 * 60)
  reject (ltb poll_interval (from_secs 30))
      (validation "usage.poll_interval_seconds must be at least 30")
  ok (record { soft_threshold_percent = threshold; poll_interval = poll_interval })

unfoldable pub load_usage_history_dir : Option String → Result String ConfigError
load_usage_history_dir raw = do
  let dir = get_or raw "/var/log/orihsus/usage"
  reject (str_eq dir "") (validation "usage_history_dir must not be empty")
  ok dir

abbrev audit_path : Option String → String
audit_path none = "/var/log/orihsus/audit.jsonl"
audit_path (some p) = if is_blank p then "/var/log/orihsus/audit.jsonl" else p

unfoldable pub load_audit : Option RawAudit → Result Audit ConfigError
load_audit raw = do
  let path : Option String = elim raw [ none ↦ none | some r ↦ r.path ]
  let capacity : Option ℕ = elim raw [ none ↦ none | some r ↦ r.queue_capacity ]
  let queue_capacity = get_or capacity 4096
  reject (queue_capacity == 0) (validation "audit.queue_capacity must be at least 1")
  ok (record { path = audit_path path; queue_capacity = queue_capacity })
