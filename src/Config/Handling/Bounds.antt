-- ===== src/Config/Handling/Bounds.antt =====
-- What the key failure handling and the usage section of src/config.rs satisfy once accepted.
use orihsus.Prelude.{
  refl, inl, inr, String, none, some, is_blank, is_whitespace, str_eq, Bool-cases, Ensures, ◌*◌,
  ◌^◌, ◌<◌, ◌≤◌, ◌≡◌, ◌||◌, true, false, not, Option, ok, arith,
}
use orihsus.Time.{from_secs}
use orihsus.Float.{F64, whole, finite, nan, infinite, is_finite, le_f64, lt_f64}
use orihsus.Pool.Policy.{max_cooldown}
use orihsus.Config.Types.{KeyFailureHandling, Usage, Audit}
use orihsus.Config.Raw.{RawKeyFailureHandling, RawUsage, RawAudit}
use orihsus.Config.Limits.{u32_max}
use orihsus.Config.Handling.{
  load_key_failure_handling, threshold_of, load_usage, audit_path, load_audit,
  load_usage_history_dir,
}

pub record HandlingIsValid (h : KeyFailureHandling) : Type 0 where
  pub some_backoff : 0 < h.backoff_initial
  pub backoff_ordered : h.backoff_initial ≤ h.backoff_max
  pub backoff_capped : h.backoff_max ≤ max_cooldown
  pub some_threshold : 0 < h.breaker_threshold
  pub threshold_fits : h.breaker_threshold ≤ u32_max
  pub some_cooldown : 0 < h.breaker_cooldown
  pub some_attempt : 0 < h.max_attempts
  pub few_attempts : h.max_attempts ≤ 2

pub load_key_failure_handling-valid :
    (raw : Option RawKeyFailureHandling) {h : KeyFailureHandling}
    → load_key_failure_handling raw ≡ ok h
    → HandlingIsValid h
unfolding load_key_failure_handling
load_key_failure_handling-valid raw loaded = ground arith

-- A positive finite number, at most 100.
abbrev pub IsPercent : F64 → Type 0
IsPercent (finite false n) = (0 < n) × (n ≤ 100 * 2 ^ 1074)
IsPercent _ = ⊥

pub record UsageIsValid (u : Usage) : Type 0 where
  pub threshold : IsPercent u.soft_threshold_percent
  pub interval : from_secs 30 ≤ u.poll_interval

IsPercent-bounds :
    (x : F64)
    → (not (is_finite x) || le_f64 x (whole 0) || lt_f64 (whole 100) x) ≡ false
    → IsPercent x
unfolding is_finite le_f64 lt_f64
IsPercent-bounds nan h = cc
IsPercent-bounds (infinite s) h = cc
IsPercent-bounds (finite false n) h = ground arith
IsPercent-bounds (finite true n) h = ground arith

pub load_usage-valid : (raw : Option RawUsage) {u : Usage} → load_usage raw ≡ ok u → UsageIsValid u
unfolding load_usage
load_usage-valid raw loaded = ground (arith, IsPercent-bounds (threshold_of raw))

-- The log has a path that is not blank, and room for a record in its queue.
pub record AuditIsValid (a : Audit) : Type 0 where
  pub named : is_blank a.path ≡ false
  pub some_queue : 0 < a.queue_capacity

path_of : (path : Option String) → is_blank (audit_path path) ≡ false
unfolding is_blank is_whitespace
path_of none = refl
path_of (some p) = elim (Bool-cases (is_blank p)) [
  | inl blank ↦ rw blank refl
  | inr filled ↦ rw (filled, filled) refl
]

pub load_audit-valid : (raw : Option RawAudit) {a : Audit} → load_audit raw ≡ ok a → AuditIsValid a
unfolding load_audit
load_audit-valid none loaded = ground (arith, path_of none)
load_audit-valid (some r) loaded = ground (arith, path_of r.path)

pub load_usage_history_dir-valid :
    (raw : Option String) → Ensures (λ dir. str_eq dir "" ≡ false) (load_usage_history_dir raw)
unfolding load_usage_history_dir
load_usage_history_dir-valid none = refl
load_usage_history_dir-valid (some dir) = ground arith
