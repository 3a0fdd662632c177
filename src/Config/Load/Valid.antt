-- ===== src/Config/Load/Valid.antt =====
-- What an accepted configuration of src/config.rs satisfies, from what its parts ensure.
use orihsus.Prelude.{◌≡◌, ◌≤◌, Bool, true, false, Option, ok, str_eq, >>=-on_ok, Ensures-ok}
use orihsus.Time.{from_secs}
use orihsus.Config.Raw.{RawConfig, RawModelSync}
use orihsus.Config.Types.{Config, ModelSync}
use orihsus.Config.Credentials.{load_gateway_keys, load_listen, load_keys, is_loopback}
use orihsus.Config.Credentials.Checked.{KeysAreValid, load_gateway_keys-valid}
use orihsus.Config.Credentials.Keys.{UpstreamKeysAreValid, load_keys-valid, load_listen-valid}
use orihsus.Config.Limits.{load_models, load_model_sync, load_limits}
use orihsus.Config.Limits.Bounds.{LimitsAreValid, load_limits-valid}
use orihsus.Config.Limits.Models.{ModelsAreValid, load_models-valid, load_model_sync-valid}
use orihsus.Config.Handling.{
  load_key_failure_handling, load_usage, load_usage_history_dir, load_audit,
}
use orihsus.Config.Handling.Bounds.{
  HandlingIsValid, UsageIsValid, AuditIsValid, load_audit-valid, load_usage_history_dir-valid,
  load_key_failure_handling-valid, load_usage-valid,
}
use orihsus.Config.Hardening.{load_server}
use orihsus.Config.Hardening.Bounds.{ServerIsValid, load_server-valid}
use orihsus.Config.Load.{Platform, try_from, is_some}

-- Every section of the configuration is valid, and the address is a loopback address.
pub record ConfigIsValid (platform : Platform) (c : Config) : Type 0 where
  pub loopback : is_loopback c.listen.ip ≡ true
  pub gateway : KeysAreValid c.gateway_keys
  pub upstream : UpstreamKeysAreValid c.keys
  pub model_list : ModelsAreValid c.models
  pub sync_interval : from_secs 30 ≤ c.model_sync.interval
  pub request_limits : LimitsAreValid platform.max_permits c.limits
  pub handling : HandlingIsValid c.key_failure_handling
  pub usage_polling : UsageIsValid c.usage
  pub history : str_eq c.usage_history_dir "" ≡ false
  pub audit_log : AuditIsValid c.audit
  pub hardening : ServerIsValid c.server

interval_of :
    (has_manual_models : Bool) (raw : Option RawModelSync) (s : ModelSync)
    → load_model_sync has_manual_models raw ≡ ok s
    → from_secs 30 ≤ s.interval
interval_of has_manual_models raw s loaded =
    (Ensures-ok (λ s. (from_secs 30 ≤ s.interval) × (has_manual_models ≡ true → s.enabled ≡ false))
      _ s loaded (load_model_sync-valid has_manual_models raw)).0

-- Whatever the configuration file says, when it is accepted the address is a loopback address, the
-- gateway keys, the upstream keys and the models are some, well formed and without repetition, and
-- every number and duration is within its bounds; the directory of the usage history is named, and the
-- path of the audit log is not blank.
pub try_from-valid :
    (platform : Platform) (raw : RawConfig) (c : Config)
    → try_from platform raw ≡ ok c
    → ConfigIsValid platform c
unfolding try_from
try_from-valid platform raw c accepted =
    >>=-on_ok (load_gateway_keys raw.gateway_token raw.gateway_keys) _ accepted
      (λ gateway gateway_ok after_gateway.
        >>=-on_ok (load_listen platform.parse_ip raw.listen) _ after_gateway
          (λ listen listen_ok after_listen.
            >>=-on_ok (load_keys platform.sha256 raw.keys) _ after_listen
              (λ keys keys_ok after_keys.
                >>=-on_ok (load_models raw.models) _ after_keys (λ models models_ok after_models.
                  >>=-on_ok (load_model_sync (is_some raw.models) raw.model_sync) _ after_models
                    (λ sync sync_ok after_sync.
                      >>=-on_ok (load_limits platform.max_permits raw.limits) _ after_sync
                        (λ limits limits_ok after_limits.
                          >>=-on_ok (load_key_failure_handling raw.key_failure_handling) _
                            after_limits
                            (λ handling handling_ok after_handling.
                              >>=-on_ok (load_usage raw.usage) _ after_handling
                                (λ usage usage_ok after_usage.
                                  >>=-on_ok (load_usage_history_dir raw.usage_history_dir) _
                                    after_usage
                                    (λ history history_ok after_history.
                                      >>=-on_ok (load_audit raw.audit) _ after_history
                                        (λ audit audit_ok after_audit.
                                          >>=-on_ok (load_server raw.server) _ after_audit
                                            (λ server server_ok after_server.
                                              Ensures-ok (ConfigIsValid platform) (ok _) c
                                                after_server
                                                (record {
                                                  loopback =
                                                      Ensures-ok (λ a. is_loopback a.ip ≡ true) _
                                                        listen listen_ok
                                                        (load_listen-valid platform.parse_ip
                                                          raw.listen);
                                                  gateway =
                                                      Ensures-ok KeysAreValid _ gateway gateway_ok (
                                                        load_gateway_keys-valid raw.gateway_token
                                                          raw.gateway_keys);
                                                  upstream =
                                                      Ensures-ok (λ r. UpstreamKeysAreValid r.0) _
                                                        keys keys_ok
                                                        (load_keys-valid platform.sha256 raw.keys);
                                                  model_list =
                                                      Ensures-ok ModelsAreValid _ models models_ok
                                                        (load_models-valid raw.models);
                                                  sync_interval =
                                                      interval_of (is_some raw.models)
                                                        raw.model_sync sync sync_ok;
                                                  request_limits =
                                                      load_limits-valid platform.max_permits
                                                        raw.limits limits_ok;
                                                  handling =
                                                      load_key_failure_handling-valid
                                                        raw.key_failure_handling handling_ok;
                                                  usage_polling =
                                                      load_usage-valid raw.usage usage_ok;
                                                  history =
                                                      Ensures-ok (λ d. str_eq d "" ≡ false) _
                                                        history history_ok
                                                        (load_usage_history_dir-valid
                                                          raw.usage_history_dir);
                                                  audit_log = load_audit-valid raw.audit audit_ok;
                                                  hardening =
                                                      load_server-valid raw.server server_ok;
                                                }))))))))))))
