-- ===== src/Config/Load.antt =====
-- `Config::try_from` of src/config.rs, and the test of the file's metadata.
pub mod Valid
use orihsus.Prelude.{
  ℕ, String, Bool, ◌&&◌, Option, none, some, List, Result, ok, err, ◌>>=◌, ◌>>◌, ◌==◌,
}
use orihsus.Config.Raw.{RawConfig}
use orihsus.Config.Types.{Config, IpAddr, ConfigError}
use orihsus.Config.Credentials.{load_gateway_keys, load_listen, load_keys}
use orihsus.Config.Limits.{load_models, load_model_sync, load_limits}
use orihsus.Config.Handling.{
  load_key_failure_handling, load_usage, load_usage_history_dir, load_audit,
}
use orihsus.Config.Hardening.{load_server}

-- What the libraries give: the digest, the parser of addresses and the most permits of a semaphore.
pub record Platform : Type 0 where
  pub sha256 : String → List ℕ
  pub parse_ip : String → Option IpAddr
  pub max_permits : ℕ

abbrev is_some {ℓ} : {A : Type ℓ} → Option A → Bool
is_some none = Bool.false
is_some (some a) = Bool.true

unfoldable pub try_from : Platform → RawConfig → Result Config ConfigError
try_from platform raw = do
  gateway_keys ← load_gateway_keys raw.gateway_token raw.gateway_keys
  listen ← load_listen platform.parse_ip raw.listen
  (keys, aliases) ← load_keys platform.sha256 raw.keys
  models ← load_models raw.models
  model_sync ← load_model_sync (is_some raw.models) raw.model_sync
  limits ← load_limits platform.max_permits raw.limits
  key_failure_handling ← load_key_failure_handling raw.key_failure_handling
  usage ← load_usage raw.usage
  usage_history_dir ← load_usage_history_dir raw.usage_history_dir
  audit ← load_audit raw.audit
  server ← load_server raw.server
  ok (record {
    listen = listen;
    gateway_keys = gateway_keys;
    keys = keys;
    key_aliases = aliases;
    models = models;
    model_sync = model_sync;
    limits = limits;
    key_failure_handling = key_failure_handling;
    usage = usage;
    usage_history_dir = usage_history_dir;
    audit = audit;
    server = server;
  })

unfoldable pub secure_config_metadata : Bool → ℕ → ℕ → ℕ → Bool
secure_config_metadata is_file mode owner effective_uid =
    is_file && mode == 0o600 && owner == effective_uid
