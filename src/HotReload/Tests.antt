-- ===== src/HotReload/Tests.antt =====
-- The theorems on src/hot_reload.rs, at an accepted configuration with a second key set, one that
-- changes the address, and an error.
use orihsus.Prelude.{inl, some, none, ◌≡◌, refl, ok, err, ℕ, String, List, [], ◌∷◌, ◌+◌, ◌^◌, ◌%◌}
use orihsus.Float.{le_f64}
use orihsus.Config.Types.{Config}
use orihsus.Config.Tests.{accepted}
use orihsus.Pool.Tests.{two_keys}
use orihsus.Pool.History.{overuses}
use orihsus.HotReload.{Reloader, Wake, default_status, worker, non_hot_changed}
use orihsus.HotReload.Adopts.{Adopts, last_good, adopted, worker-Adopts}
use orihsus.HotReload.Counts.{adoptions, refusals, worker-counts}

abbrev digest : String → List ℕ
digest text = 171 ∷ 205 ∷ []

abbrev starting : Config
starting = record accepted { keys = record { as_str = "key-a" } ∷ record { as_str = "key-b" } ∷ [] }

abbrev other_keys : Config
other_keys = record starting { keys = record { as_str = "key-c" } ∷ [] }

abbrev moved : Config
moved = record starting { listen = record starting.listen { port = 1 } }

abbrev pub reloader : Reloader ℕ String
reloader = record {
  status = default_status;
  targets = record {
    store = record {
      inner = record {
        gateway_keys = starting.gateway_keys;
        base_url = 0;
        max_body_bytes = starting.limits.max_body_bytes;
        key_aliases = starting.key_aliases;
        models = starting.models;
      };
      pool = two_keys;
    };
    model_sync = starting.model_sync;
    usage_keys = starting.keys;
  };
}

abbrev wakes : List (Wake String)
wakes =
    record {
      between = overuses 60 "bb" 5 ∷ [];
      synced = some ("m" ∷ []);
      loaded = ok other_keys;
      now = 100;
    }
    ∷ record { between = []; synced = none; loaded = ok moved; now = 200 }
    ∷ record { between = []; synced = none; loaded = err "no file"; now = 300 }
    ∷ []

worker-Adopts_example : Adopts digest 0 starting starting starting.models reloader wakes
worker-Adopts_example =
    worker-Adopts digest 0 starting starting starting.models reloader wakes
      ((tt, tt), (tt, (tt, tt)))
      (record {
        same_listen = refl;
        same_limits = refl;
        same_handling = refl;
        same_threshold = inl refl;
        same_poll = refl;
        same_history = refl;
        same_audit = refl;
        same_server = refl;
      })
      (record {
        running_models = refl;
        base_url = refl;
        pool_keys = refl;
        usage_keys = refl;
        model_sync = refl;
        gateway_keys = refl;
        key_aliases = refl;
        max_body_bytes = refl;
      })

worker-counts_example :
    ((worker digest 0 starting reloader wakes).status.successful_reloads % 2 ^ 64
      ≡ (0 + adoptions starting wakes) % 2 ^ 64)
    × ((worker digest 0 starting reloader wakes).status.failed_reloads % 2 ^ 64
        ≡ (0 + refusals starting wakes) % 2 ^ 64)
worker-counts_example = worker-counts digest 0 starting reloader wakes

-- The first of the three is adopted.
one_adopted : last_good starting starting wakes ≡ other_keys
unfolding last_good adopted non_hot_changed le_f64
one_adopted = refl

two_refused : refusals starting wakes ≡ 2
unfolding refusals adopted non_hot_changed le_f64
two_refused = refl
