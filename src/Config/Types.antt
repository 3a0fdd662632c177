-- ===== src/Config/Types.antt =====
-- The validated configuration of src/config.rs. Durations are in nanoseconds, paths are texts, and a
-- `BTreeMap` is its list of entries.
use orihsus.Prelude.{ℕ, String, Bool, List}
use orihsus.Float.{F64}
use orihsus.Config.Secret.{Secret}

pub record GatewayKey : Type 0 where
  pub name : String
  pub token : Secret

pub record ModelSync : Type 0 where
  pub enabled : Bool
  pub interval : ℕ

pub record Usage : Type 0 where
  pub soft_threshold_percent : F64
  pub poll_interval : ℕ

pub record Limits : Type 0 where
  pub max_concurrency : ℕ
  pub max_queue : ℕ
  pub queue_wait_timeout : ℕ
  pub max_body_bytes : ℕ
  pub max_inflight_body_bytes : ℕ

pub record KeyFailureHandling : Type 0 where
  pub backoff_initial : ℕ
  pub backoff_max : ℕ
  pub breaker_threshold : ℕ
  pub breaker_cooldown : ℕ
  pub max_attempts : ℕ

pub record Audit : Type 0 where
  pub path : String
  pub queue_capacity : ℕ

pub record EventTimeouts : Type 0 where
  pub first_event_timeout : ℕ
  pub inter_event_timeout : ℕ

pub record Server : Type 0 where
  pub read_header_timeout : ℕ
  pub max_header_bytes : ℕ
  pub body_read_timeout : ℕ
  pub upstream_response_header_timeout : ℕ
  pub first_event_timeout : ℕ
  pub inter_event_timeout : ℕ
  pub model_event_timeouts : List (String × EventTimeouts)
  pub upstream_error_body_timeout : ℕ
  pub response_write_timeout : ℕ
  pub max_connections : ℕ

-- An address, by its bytes or by its eight groups.
pub data IpAddr : Type 0 where
  v4 : ℕ → ℕ → ℕ → ℕ → IpAddr
  v6 : List ℕ → IpAddr

pub record SocketAddr : Type 0 where
  pub ip : IpAddr
  pub port : ℕ

pub record Config : Type 0 where
  pub listen : SocketAddr
  pub gateway_keys : List GatewayKey
  pub keys : List Secret
  pub key_aliases : List (String × String)
  pub models : List String
  pub model_sync : ModelSync
  pub limits : Limits
  pub key_failure_handling : KeyFailureHandling
  pub usage : Usage
  pub usage_history_dir : String
  pub audit : Audit
  pub server : Server

-- `ErrorKind::Validation`, by its message; `validation_bound` prints a bound between two texts.
pub data ConfigError : Type 0 where
  validation : String → ConfigError
  validation_bound : String → ℕ → String → ConfigError
