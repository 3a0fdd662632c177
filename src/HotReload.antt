-- ===== src/HotReload.antt =====
-- src/hot_reload.rs, and the callback of `run` in src/main.rs that applies a reload. Reading the
-- file and the file watcher are the environment.
pub mod Static
pub mod Adopts
pub mod Counts
pub mod Tests
use orihsus.Prelude.{
  ℕ, ◌+◌, ◌%◌, ◌^◌, String, Bool, true, false, not, ◌&&◌, ◌||◌, Option, none, some, List, [], ◌∷◌,
  any, ◌==◌, str_eq, if◌then◌else◌, Result, ok, err,
}
use orihsus.Config.Secret.{Secret}
use orihsus.Config.Types.{GatewayKey, ModelSync, Limits, KeyFailureHandling, Config}
use orihsus.Config.Compare.{
  eq_listen, eq_limits, eq_key_failure_handling, eq_usage, eq_audit, eq_server,
}
use orihsus.Pool.Policy.{PoolError}
use orihsus.Pool.History.{Event, run}
use orihsus.Gateway.Store.{RuntimeState, RuntimeStore, update_models, update_with_keys}

pub record RuntimeConfigSnapshot : Type 0 where
  pub gateway_keys : List GatewayKey
  pub keys : List Secret
  pub key_aliases : List (String × String)
  pub models : List String
  pub model_sync : ModelSync
  pub limits : Limits
  pub key_failure_handling : KeyFailureHandling

abbrev pub from_config : Config → RuntimeConfigSnapshot
from_config cfg = record {
  gateway_keys = cfg.gateway_keys;
  keys = cfg.keys;
  key_aliases = cfg.key_aliases;
  models = cfg.models;
  model_sync = cfg.model_sync;
  limits = cfg.limits;
  key_failure_handling = cfg.key_failure_handling;
}

-- `last_error`, by the message that it holds: the error of the loader, or a static text.
pub data ReloadError (E : Type 0) : Type 0 where
  cannot_reload : E → ReloadError E
  apply_failed restart_required : ReloadError E

pub record StatusState (E : Type 0) : Type 0 where
  pub successful_reloads : ℕ
  pub failed_reloads : ℕ
  pub last_error : Option (ReloadError E)
  pub last_loaded_at : Option ℕ
  pub needs_restart : Bool

abbrev pub default_status : {E : Type 0} → StatusState E
default_status = record {
  successful_reloads = 0;
  failed_reloads = 0;
  last_error = none;
  last_loaded_at = none;
  needs_restart = false;
}

abbrev add_one : ℕ → ℕ
add_one n = (n + 1) % 2 ^ 64

module _ {E : Type 0} where
  unfoldable pub record_success : StatusState E → ℕ → StatusState E
  record_success state now = record {
    successful_reloads = add_one state.successful_reloads;
    failed_reloads = state.failed_reloads;
    last_error = none;
    last_loaded_at = some now;
    needs_restart = false;
  }

  unfoldable pub record_failure : StatusState E → ReloadError E → StatusState E
  record_failure state e = record state {
    failed_reloads = add_one state.failed_reloads;
    last_error = some e;
  }

  unfoldable pub record_needs_restart : StatusState E → StatusState E
  record_needs_restart state = record state {
    failed_reloads = add_one state.failed_reloads;
    last_error = some restart_required;
    needs_restart = true;
  }

unfoldable pub non_hot_changed : Config → Config → Bool
non_hot_changed cfg baseline =
    not (eq_listen cfg.listen baseline.listen)
    || not (eq_limits cfg.limits baseline.limits)
    || not (eq_key_failure_handling cfg.key_failure_handling baseline.key_failure_handling)
    || not (eq_usage cfg.usage baseline.usage)
    || not (str_eq cfg.usage_history_dir baseline.usage_history_dir)
    || not (eq_audit cfg.audit baseline.audit)
    || not (eq_server cfg.server baseline.server)

-- `notify::EventKind`, less the details of each kind.
pub data EventKind : Type 0 where
  any_event access create modify remove other : EventKind

abbrev is_relevant_kind : EventKind → Bool
is_relevant_kind create = true
is_relevant_kind modify = true
is_relevant_kind remove = true
is_relevant_kind _ = false

unfoldable pub event_targets : EventKind → List String → String → Bool
event_targets kind paths target = is_relevant_kind kind && any (λ p. str_eq p target) paths

-- What a reload changes: the store with the pool, the configuration of the model synchronization,
-- and the keys of the usage monitor.
pub record Targets (U : Type 0) : Type 0 where
  pub store : RuntimeStore U
  pub model_sync : ModelSync
  pub usage_keys : List Secret

-- The worker with what it changes.
pub record Reloader (U E : Type 0) : Type 0 where
  pub status : StatusState E
  pub targets : Targets U

-- A wake-up of the worker behind its debounce: what requests and the usage monitor have done to the
-- pool since the last one, the models that the synchronization has put into the store if it has,
-- what the loader reads, and the clock.
pub record Wake (E : Type 0) : Type 0 where
  pub between : List Event
  pub synced : Option (List String)
  pub loaded : Result Config E
  pub now : ℕ

abbrev synced_store : {U : Type 0} → RuntimeStore U → Option (List String) → RuntimeStore U
synced_store store none = store
synced_store store (some models) = update_models store models

module _ {U : Type 0} (sha256 : String → List ℕ) (url : U) where
  abbrev new_state : Targets U → RuntimeConfigSnapshot → RuntimeState U
  new_state t snap = record {
    gateway_keys = snap.gateway_keys;
    base_url = url;
    max_body_bytes = snap.limits.max_body_bytes;
    key_aliases = snap.key_aliases;
    models = if snap.model_sync.enabled then t.store.inner.models else snap.models;
  }

  abbrev applied :
      Targets U → RuntimeConfigSnapshot → Result (RuntimeStore U) PoolError → Bool × Targets U
  applied t snap (err e) = (false, t)
  applied t snap (ok store) =
      (true, record { store = store; model_sync = snap.model_sync; usage_keys = snap.keys })

  -- The callback. It replaces the configuration of the synchronization first, and puts the previous
  -- one back when the keys are refused.
  unfoldable pub apply_reload : Targets U → RuntimeConfigSnapshot → Bool × Targets U
  unfolding update_with_keys
  apply_reload t snap =
      applied t snap (update_with_keys sha256 t.store snap.keys (new_state t snap))

  module _ {E : Type 0} where
    abbrev record_applied : ℕ → StatusState E → Bool × Targets U → Reloader U E
    record_applied now status (true, t) = record { status = record_success status now; targets = t }
    record_applied now status (false, t) = record {
      status = record_failure status apply_failed;
      targets = t;
    }

    -- One iteration of the worker, from what it loads.
    unfoldable pub reload : Config → Reloader U E → Result Config E → ℕ → Reloader U E
    unfolding non_hot_changed apply_reload record_success record_failure record_needs_restart
    reload initial r (err e) now = record r { status = record_failure r.status (cannot_reload e) }
    reload initial r (ok cfg) now =
        if non_hot_changed cfg initial
        then record r { status = record_needs_restart r.status }
        else record_applied now r.status (apply_reload r.targets (from_config cfg))

    abbrev after_between : Reloader U E → Wake E → Reloader U E
    after_between r w =
        let pool = run sha256 r.targets.store.pool w.between in
        record r {
          targets = record r.targets {
            store = synced_store (record r.targets.store { pool = pool }) w.synced;
          };
        }

    -- The loop of the worker over its wake-ups, up to the end of the channel.
    unfoldable pub worker : Config → Reloader U E → List (Wake E) → Reloader U E
    unfolding reload run update_models
    worker initial r [] = r
    worker initial r (w ∷ ws) =
        worker initial (reload initial (after_between r w) w.loaded w.now) ws
