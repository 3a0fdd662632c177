-- ===== src/HotReload/Adopts.antt =====
-- Which configuration runs after any history of reloads of src/hot_reload.rs.
use mathlib.Core.Path.{subst, sym}
use orihsus.Prelude.{
  ◌≡◌, refl, ◌∙◌, ◌⊎◌, inl, inr, ℕ, String, Option, none, some, List, [], ◌∷◌, map, if◌then◌else◌,
  Result, ok, err, All, Bool-cases,
}
use orihsus.Config.Secret.{Secret}
use orihsus.Config.Types.{Config}
use orihsus.Pool.Entry.{KeyEntry}
use orihsus.Pool.State.{KeyPool, fresh_entry, replace_keys}
use orihsus.Pool.State.Reload.{AllCarried, replace_keys_lem}
use orihsus.Pool.History.{run}
use orihsus.Pool.History.Keys.{keys_of, IsNoReload, run-keys_of}
use orihsus.Gateway.Store.{update_models, update_with_keys}
use orihsus.HotReload.{
  Targets, Reloader, Wake, add_one, record_success, record_failure, record_needs_restart,
  non_hot_changed, apply_reload, reload, after_between, synced_store, worker,
}
use orihsus.HotReload.Static.{SameStatic, unchanged-SameStatic}

-- The configuration that a load brings, unless it is in error, changes a static field or has no key.
abbrev with_keys : Config → List Secret → Option Config
with_keys cfg [] = none
with_keys cfg (key ∷ keys) = some cfg

abbrev or_keep : Config → Option Config → Config
or_keep current none = current
or_keep current (some cfg) = cfg

module _ {E : Type 0} where
  unfoldable pub adopted : Config → Result Config E → Option Config
  adopted initial (err e) = none
  adopted initial (ok cfg) = if non_hot_changed cfg initial then none else with_keys cfg cfg.keys

  -- The last configuration that was adopted.
  unfoldable pub last_good : Config → Config → List (Wake E) → Config
  unfolding adopted
  last_good initial current [] = current
  last_good initial current (w ∷ ws) =
      last_good initial (or_keep current (adopted initial w.loaded)) ws

-- The models that run: those of the last configuration that was adopted if it has synchronization
-- off, and else those that ran before it, or that the synchronization has put in their place.
abbrev models_behind : List String → Option Config → List String
models_behind models none = models
models_behind models (some cfg) = if cfg.model_sync.enabled then models else cfg.models

abbrev or_synced : List String → Option (List String) → List String
or_synced models none = models
or_synced models (some synced) = synced

module _ {E : Type 0} where
  unfoldable pub last_models : Config → List String → List (Wake E) → List String
  unfolding adopted
  last_models initial models [] = models
  last_models initial models (w ∷ ws) =
      last_models initial (models_behind (or_synced models w.synced) (adopted initial w.loaded)) ws

-- The parts of the runtime are all of the one configuration, with these models and the built-in URL.
pub record Runs {U : Type 0} (url : U) (models : List String) (cfg : Config) (t : Targets U)
    : Type 0 where
  pub running_models : t.store.inner.models ≡ models
  pub base_url : t.store.inner.base_url ≡ url
  pub pool_keys : keys_of t.store.pool ≡ cfg.keys
  pub usage_keys : t.usage_keys ≡ cfg.keys
  pub model_sync : t.model_sync ≡ cfg.model_sync
  pub gateway_keys : t.store.inner.gateway_keys ≡ cfg.gateway_keys
  pub key_aliases : t.store.inner.key_aliases ≡ cfg.key_aliases
  pub max_body_bytes : t.store.inner.max_body_bytes ≡ cfg.limits.max_body_bytes

synced-Runs :
    {U : Type 0} (url : U) (cfg : Config) (models : List String) (t : Targets U)
    (synced : Option (List String))
    → Runs url models cfg t
    → Runs url (or_synced models synced) cfg (record t { store = synced_store t.store synced })
unfolding update_models
synced-Runs url cfg models t none runs = record {
  running_models = runs.running_models;
  base_url = runs.base_url;
  pool_keys = runs.pool_keys;
  usage_keys = runs.usage_keys;
  model_sync = runs.model_sync;
  gateway_keys = runs.gateway_keys;
  key_aliases = runs.key_aliases;
  max_body_bytes = runs.max_body_bytes;
}
synced-Runs url cfg models t (some synced) runs = record {
  running_models = refl;
  base_url = runs.base_url;
  pool_keys = runs.pool_keys;
  usage_keys = runs.usage_keys;
  model_sync = runs.model_sync;
  gateway_keys = runs.gateway_keys;
  key_aliases = runs.key_aliases;
  max_body_bytes = runs.max_body_bytes;
}

module _ (sha256 : String → List ℕ) where
  carried-keys :
      (old : List KeyEntry) (keys : List Secret) (es : List KeyEntry)
      → AllCarried sha256 old keys es
      → map (λ e. e.key) es ≡ keys
  unfolding fresh_entry
  carried-keys old [] [] h = refl
  carried-keys old (key ∷ keys) (e ∷ es) (inl (_, fresh), h) =
      λ i. (fresh i).key ∷ carried-keys old keys es h i
  carried-keys old (key ∷ keys) (e ∷ es) (inr (prev, _, same), h) =
      λ i. (same i).key ∷ carried-keys old keys es h i
  carried-keys old [] (e ∷ es) h = absurd h
  carried-keys old (key ∷ keys) [] h = absurd h

  replaced-with_keys :
      (cfg : Config) (p p' : KeyPool) (keys : List Secret)
      → replace_keys sha256 p keys ≡ ok p'
      → with_keys cfg keys ≡ some cfg
  unfolding replace_keys
  replaced-with_keys cfg p p' [] replaced = cc
  replaced-with_keys cfg p p' (key ∷ keys) replaced = refl

module _ {U E : Type 0} (sha256 : String → List ℕ) (url : U) where
  -- A load either is not adopted, and then the runtime stays and a failure is counted, or is, and
  -- then all the runtime is of it and a success is counted.
  pub reload_lem :
      (initial : Config) (r : Reloader U E) (loaded : Result Config E) (now : ℕ)
      → let r' = reload sha256 url initial r loaded now in
        ((adopted initial loaded ≡ none)
          × (r'.targets ≡ r.targets)
          × (r'.status.failed_reloads ≡ add_one r.status.failed_reloads)
          × (r'.status.successful_reloads ≡ r.status.successful_reloads))
        ⊎ ((cfg : Config) × (adopted initial loaded ≡ some cfg)
            × Runs url (models_behind r.targets.store.inner.models (some cfg)) cfg r'.targets
            × SameStatic cfg initial
            × (r'.status.failed_reloads ≡ r.status.failed_reloads)
            × (r'.status.successful_reloads ≡ add_one r.status.successful_reloads))
  unfolding reload adopted apply_reload update_with_keys record_success record_failure
      record_needs_restart
  reload_lem initial r (err e) now = inl (refl, refl, refl, refl)
  reload_lem initial r (ok cfg) now = elim (Bool-cases (non_hot_changed cfg initial)) [
    | inl changed ↦ inl (rw changed (refl, refl, refl, refl))
    | inr same ↦ elim (replace_keys_lem sha256 r.targets.store.pool cfg.keys) [
      | inl (nothing, refused) ↦ inl (rw (same, refused, nothing) (refl, refl, refl, refl))
      | inr (p', replaced, carried, _, _, _, _) ↦ inr (
        cfg,
        rw (same, replaced-with_keys sha256 cfg r.targets.store.pool p' cfg.keys replaced) refl,
        rw (same, replaced)
            (record {
              running_models = refl;
              base_url = refl;
              pool_keys =
                  carried-keys sha256 r.targets.store.pool.entries cfg.keys p'.entries carried;
              usage_keys = refl;
              model_sync = refl;
              gateway_keys = refl;
              key_aliases = refl;
              max_body_bytes = refl;
            }),
        unchanged-SameStatic cfg initial same,
        rw (same, replaced) refl,
        rw (same, replaced) refl,
      )
    ]
  ]

  -- What a history has adopted, from a start with these models.
  abbrev pub Adopts : Config → Config → List String → Reloader U E → List (Wake E) → Type 0
  Adopts initial current models r ws =
      let r' = worker sha256 url initial r ws in
      Runs url (last_models initial models ws) (last_good initial current ws) r'.targets
      × SameStatic (last_good initial current ws) initial

  after_between-Runs :
      (cfg : Config) (models : List String) (r : Reloader U E) (w : Wake E)
      → All IsNoReload w.between
      → Runs url models cfg r.targets
      → Runs url (or_synced models w.synced) cfg (after_between sha256 url r w).targets
  after_between-Runs cfg models r w quiet runs =
      let pool = run sha256 r.targets.store.pool w.between in
      let t : Targets U = record r.targets { store = record r.targets.store { pool = pool } } in
      synced-Runs url cfg models t w.synced (record {
        running_models = runs.running_models;
        base_url = runs.base_url;
        pool_keys = run-keys_of sha256 r.targets.store.pool w.between quiet ∙ runs.pool_keys;
        usage_keys = runs.usage_keys;
        model_sync = runs.model_sync;
        gateway_keys = runs.gateway_keys;
        key_aliases = runs.key_aliases;
        max_body_bytes = runs.max_body_bytes;
      })

  -- After every history of reloads, whatever requests, usage observations and model synchronizations
  -- come between, the pool, the store, the usage monitor and the model synchronization run all with
  -- the last configuration that was loaded without an error, has a key and changes no static field,
  -- or with the one before the history if there is none. The models are those of that configuration
  -- if it turns synchronization off, and else stay what they were or what was synchronized. The
  -- static fields are still those of the start; the soft threshold is the same number.
  pub worker-Adopts :
      (initial current : Config) (models : List String) (r : Reloader U E) (ws : List (Wake E))
      → All (λ w. All IsNoReload w.between) ws
      → SameStatic current initial
      → Runs url models current r.targets
      → Adopts initial current models r ws
  unfolding worker last_good last_models
  worker-Adopts initial current models r [] quiet static runs = (runs, static)
  worker-Adopts initial current models r (w ∷ ws) (calm, quiet) static runs =
      let next = after_between sha256 url r w in
      let before = after_between-Runs current models r w calm runs in
      let behind = or_synced models w.synced in
      elim (reload_lem initial next w.loaded w.now) [
        | inl (refused, stays, _, _) ↦ rw refused (
            worker-Adopts initial current behind (reload sha256 url initial next w.loaded w.now) ws
              quiet static (subst (Runs url behind current) (sym stays) before))
        | inr (cfg, adopts, now_runs, now_static, _, _) ↦ rw adopts (
            worker-Adopts initial cfg (models_behind behind (some cfg))
              (reload sha256 url initial next w.loaded w.now) ws quiet now_static
              (subst
                (λ ms.
                  Runs url (models_behind ms (some cfg)) cfg
                    (reload sha256 url initial next w.loaded w.now).targets)
                before.running_models now_runs))
      ]
