-- ===== src/Config/Raw.antt =====
-- The configuration as it is read, before validation: `RawConfig` and its parts in src/config.rs.
-- Numbers are unsigned; seconds are 64-bit, sizes and counts are `usize`.
use orihsus.Prelude.{ℕ, String, Bool, Option, List}
use orihsus.Float.{F64}

pub record RawGatewayKey : Type 0 where
  pub name : String
  pub token : String

pub data RawKey : Type 0 where
  plain : String → RawKey
  named : String → Option String → RawKey

pub record RawModelSync : Type 0 where
  pub enabled : Option Bool
  pub interval_seconds : Option ℕ

pub record RawUsage : Type 0 where
  pub soft_threshold_percent : Option F64
  pub poll_interval_seconds : Option ℕ

pub record RawListen : Type 0 where
  pub host : Option String
  pub port : Option ℕ

pub record RawLimits : Type 0 where
  pub max_concurrency : Option ℕ
  pub max_queue : Option ℕ
  pub queue_wait_timeout_seconds : Option ℕ
  pub max_body_bytes : Option ℕ
  pub max_inflight_body_bytes : Option ℕ

-- Of the retired field `soft_threshold` only the presence counts.
pub record RawKeyFailureHandling : Type 0 where
  pub has_soft_threshold : Bool
  pub backoff_initial_seconds : Option ℕ
  pub backoff_max_seconds : Option ℕ
  pub breaker_threshold : Option ℕ
  pub breaker_cooldown_seconds : Option ℕ
  pub max_attempts : Option ℕ

pub record RawAudit : Type 0 where
  pub path : Option String
  pub queue_capacity : Option ℕ

pub record RawEventTimeouts : Type 0 where
  pub first_event_timeout_seconds : Option ℕ
  pub inter_event_timeout_seconds : Option ℕ

pub record RawServer : Type 0 where
  pub read_header_timeout_seconds : Option ℕ
  pub max_header_bytes : Option ℕ
  pub body_read_timeout_seconds : Option ℕ
  pub upstream_response_header_timeout_seconds : Option ℕ
  pub first_event_timeout_seconds : Option ℕ
  pub inter_event_timeout_seconds : Option ℕ
  pub model_event_timeouts : List (String × RawEventTimeouts)
  pub upstream_error_body_timeout_seconds : Option ℕ
  pub response_write_timeout_seconds : Option ℕ
  pub max_connections : Option ℕ

pub record RawConfig : Type 0 where
  pub gateway_token : Option String
  pub gateway_keys : Option (List RawGatewayKey)
  pub listen : Option RawListen
  pub keys : Option (List RawKey)
  pub models : Option (List String)
  pub model_sync : Option RawModelSync
  pub limits : Option RawLimits
  pub key_failure_handling : Option RawKeyFailureHandling
  pub usage : Option RawUsage
  pub usage_history_dir : Option String
  pub audit : Option RawAudit
  pub server : Option RawServer
