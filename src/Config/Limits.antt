-- ===== src/Config/Limits.antt =====
-- The model list, its synchronization, and the limits of src/config.rs.
pub mod Bounds
pub mod Models
use mathlib.Core.Option.{get_or}
use orihsus.Prelude.{
  ℕ, ◌-◌, ◌*◌, ◌^◌, String, Bool, true, false, not, ◌&&◌, Option, none, some, List, [], ◌∷◌, any,
  len, is_blank, str_eq, ltb, ◌==◌, if◌then◌else◌, Result, ok, err, ◌>>=◌, ◌>>◌, reject,
}
use orihsus.Time.{from_secs}
use orihsus.Config.Raw.{RawModelSync, RawLimits}
use orihsus.Config.Types.{ModelSync, Limits, ConfigError, validation, validation_bound}

abbrev pub max_model_bytes : ℕ
max_model_bytes = 256

-- `u32::MAX`.
abbrev pub u32_max : ℕ
u32_max = 2 ^ 32 - 1

-- The loop over the manual models, with those that it has seen.
unfoldable pub models_loop : List String → List String → Result (Unit {0}) ConfigError
models_loop seen [] = ok tt
models_loop seen (m ∷ ms) = do
  reject (is_blank m) (validation "models must contain only non-blank model names")
  reject (ltb max_model_bytes (len m)) (validation "models must not exceed 256 bytes per value")
  reject (any (str_eq m) seen) (validation "models must not contain duplicates")
  models_loop (m ∷ seen) ms

unfoldable pub load_models : Option (List String) → Result (List String) ConfigError
unfolding models_loop
load_models none = ok ("deepseek-chat" ∷ [])
load_models (some []) = err (validation "models must not be empty")
load_models (some (m ∷ ms)) = do models_loop [] (m ∷ ms); ok (m ∷ ms)

-- `Some(seconds) => Duration::from_secs(seconds), None => default`.
abbrev pub seconds_or : Option ℕ → ℕ → ℕ
seconds_or none default = from_secs default
seconds_or (some seconds) default = from_secs seconds

unfoldable pub load_model_sync : Bool → Option RawModelSync → Result ModelSync ConfigError
load_model_sync has_manual_models raw = do
  let enabled : Option Bool = elim raw [ none ↦ none | some r ↦ r.enabled ]
  let seconds : Option ℕ = elim raw [ none ↦ none | some r ↦ r.interval_seconds ]
  let interval = seconds_or seconds (60 * 60)
  reject (ltb interval (from_secs 30))
      (validation "model_sync.interval_seconds must be at least 30")
  ok (record { enabled = not has_manual_models && get_or enabled true; interval = interval })

abbrev no_limits : RawLimits
no_limits = record {
  max_concurrency = none;
  max_queue = none;
  queue_wait_timeout_seconds = none;
  max_body_bytes = none;
  max_inflight_body_bytes = none;
}

-- The most permits of a tokio semaphore are the library's, and a parameter.
unfoldable pub load_limits : ℕ → Option RawLimits → Result Limits ConfigError
load_limits max_permits raw = do
  let limits = get_or raw no_limits
  let max_concurrency = get_or limits.max_concurrency 200
  reject (max_concurrency == 0) (validation "limits.max_concurrency must be at least 1")
  reject (ltb max_permits max_concurrency) (
      validation_bound "limits.max_concurrency must be at most " max_permits
        " (tokio semaphore permits)")
  let max_queue = get_or limits.max_queue 500
  reject (ltb max_permits max_queue) (
      validation_bound "limits.max_queue must be at most " max_permits " (tokio semaphore permits)")
  let queue_wait_timeout = seconds_or limits.queue_wait_timeout_seconds 30
  reject (queue_wait_timeout == 0)
      (validation "limits.queue_wait_timeout_seconds must be greater than zero")
  let max_body_bytes = get_or limits.max_body_bytes (10 * 1024 * 1024)
  reject (max_body_bytes == 0) (validation "limits.max_body_bytes must be at least 1 byte")
  reject (ltb u32_max max_body_bytes) (
      validation "limits.max_body_bytes must fit u32 (body reservations are u32 semaphore permits)")
  let max_inflight_body_bytes = get_or limits.max_inflight_body_bytes (256 * 1024 * 1024)
  reject (max_inflight_body_bytes == 0)
      (validation "limits.max_inflight_body_bytes must be at least 1 byte")
  reject (ltb u32_max max_inflight_body_bytes)
      (validation "limits.max_inflight_body_bytes must fit u32 (semaphore permits are u32)")
  reject (ltb max_inflight_body_bytes max_body_bytes)
      (validation "limits.max_inflight_body_bytes must be >= limits.max_body_bytes")
  ok (record {
    max_concurrency = max_concurrency;
    max_queue = max_queue;
    queue_wait_timeout = queue_wait_timeout;
    max_body_bytes = max_body_bytes;
    max_inflight_body_bytes = max_inflight_body_bytes;
  })
