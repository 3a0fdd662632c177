-- ===== src/Config/Tests.antt =====
-- A small configuration of src/config.rs, and what it is accepted as.
use orihsus.Prelude.{
  ◌≡◌, ◌*◌, ◌^◌, ◌-◌, refl, String, true, Option, none, some, [], ◌∷◌, ok, is_blank, insert,
}
use orihsus.Audit.Fingerprint.{fingerprint}
use orihsus.Config.Credentials.{
  load_gateway_keys, load_listen, is_loopback, load_keys, keys_loop, check_unique,
}
use orihsus.Config.Handling.{
  load_key_failure_handling, load_usage, load_usage_history_dir, load_audit,
}
use orihsus.Config.Hardening.{
  load_server, load_request_bounds, load_event_timeouts, load_response_bounds, model_timeouts_loop,
}
use orihsus.Time.{from_secs}
use orihsus.Float.{whole, is_finite, le_f64, lt_f64}
use orihsus.Config.Raw.{RawConfig, RawModelSync, plain, named}
use orihsus.Config.Types.{Config, IpAddr, v4}
use orihsus.Config.Limits.{load_models, models_loop, load_limits, load_model_sync}
use orihsus.Config.Load.{Platform, try_from}
use orihsus.Config.Load.Valid.{ConfigIsValid, try_from-valid}

-- The one address that the configuration below names.
abbrev read_ip : String → Option IpAddr
read_ip s = some (v4 127 0 0 1)

abbrev pub platform : Platform
platform = record {
  sha256 = λ s. 1 ∷ 2 ∷ 3 ∷ 4 ∷ 5 ∷ 6 ∷ [];
  parse_ip = read_ip;
  max_permits = 2 ^ 61 - 1;
}

abbrev pub raw_config : RawConfig
raw_config = record {
  gateway_token = some "gateway";
  gateway_keys = none;
  listen = none;
  keys = some (plain "key-a" ∷ named "key-b" (some "second") ∷ []);
  models = none;
  model_sync = none;
  limits = none;
  key_failure_handling = none;
  usage = none;
  usage_history_dir = none;
  audit = none;
  server = none;
}

abbrev pub accepted : Config
accepted = record {
  listen = record { ip = v4 127 0 0 1; port = 8080 };
  gateway_keys = record { name = "legacy"; token = record { as_str = "gateway" } } ∷ [];
  keys = record { as_str = "key-a" } ∷ record { as_str = "key-b" } ∷ [];
  key_aliases = ("010203040506", "second") ∷ [];
  models = "deepseek-chat" ∷ [];
  model_sync = record { enabled = true; interval = from_secs 3600 };
  limits = record {
    max_concurrency = 200;
    max_queue = 500;
    queue_wait_timeout = from_secs 30;
    max_body_bytes = 10 * 1024 * 1024;
    max_inflight_body_bytes = 256 * 1024 * 1024;
  };
  key_failure_handling = record {
    backoff_initial = from_secs 5;
    backoff_max = from_secs 60;
    breaker_threshold = 5;
    breaker_cooldown = from_secs 60;
    max_attempts = 2;
  };
  usage = record { soft_threshold_percent = whole 80; poll_interval = from_secs 300 };
  usage_history_dir = "/var/log/orihsus/usage";
  audit = record { path = "/var/log/orihsus/audit.jsonl"; queue_capacity = 4096 };
  server = record {
    read_header_timeout = from_secs 5;
    max_header_bytes = 32 * 1024;
    body_read_timeout = from_secs 30;
    upstream_response_header_timeout = from_secs 60;
    first_event_timeout = from_secs 60;
    inter_event_timeout = from_secs 90;
    model_event_timeouts = [];
    upstream_error_body_timeout = from_secs 5;
    response_write_timeout = from_secs 30;
    max_connections = 1024;
  };
}

pub is_accepted : try_from platform raw_config ≡ ok accepted
unfolding try_from load_gateway_keys is_blank load_listen is_loopback load_keys load_models
    models_loop load_model_sync load_limits load_key_failure_handling load_usage is_finite le_f64
    lt_f64 load_usage_history_dir load_audit load_server load_request_bounds load_event_timeouts
    load_response_bounds model_timeouts_loop fingerprint insert check_unique keys_loop
is_accepted = refl

try_from-valid_example : ConfigIsValid platform accepted
try_from-valid_example = try_from-valid platform raw_config accepted is_accepted

abbrev slow_sync : RawModelSync
slow_sync = record { enabled = some true; interval_seconds = some 45 }
