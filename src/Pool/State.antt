-- ===== src/Pool/State.antt =====
-- `KeyPool`, its constructors, `replace_keys` and `has_available_key` of src/pool.rs.
pub mod Reload
use mathlib.Core.Option
use orihsus.Prelude.{
  ℕ, ◌-◌, min, String, Bool, false, not, Option, none, some, List, [], ◌∷◌, map, length, any,
  Result, ok, err, ◌>>=◌, ◌>>◌, is_some_and,
}
use orihsus.Config.Secret.{Secret}
use orihsus.Audit.Fingerprint.{fingerprint}
use orihsus.Pool.Policy.{PoolPolicy, PoolError, empty_keys, validate}
use orihsus.Pool.Jitter.{Jitter, default_jitter}
use orihsus.Pool.Entry.{KeyEntry, key_suffix, find_entry, is_cooling}

-- `PoolInner` with its `PoolState`.
pub record KeyPool : Type 0 where
  pub entries : List KeyEntry
  pub cursor : ℕ
  pub policy : PoolPolicy
  pub jitter_source : Jitter
  pub next_id : ℕ

module _ (sha256 : String → List ℕ) where
  unfoldable pub fresh_entry : Secret → KeyEntry
  fresh_entry key = record {
    key = key;
    fingerprint = fingerprint sha256 key.as_str;
    status_id = key_suffix key.as_str;
    cooling_until = none;
    cooling_reason = none;
    cooling_by = none;
    consecutive_failures = 0;
    backoff_step = 0;
    last_failure_by = none;
    half_open = false;
    liveness_cooling = [];
  }

  abbrev nonempty : List Secret → Result (Unit {0}) PoolError
  nonempty [] = err empty_keys
  nonempty (k ∷ ks) = ok tt

  unfoldable pub with_jitter : List Secret → PoolPolicy → Jitter → Result KeyPool PoolError
  unfolding fresh_entry
  with_jitter keys policy source = do
    validate policy
    nonempty keys
    ok (record {
      entries = map fresh_entry keys;
      cursor = 0;
      policy = policy;
      jitter_source = source;
      next_id = 0;
    })

  -- `KeyPool::new`, from the nanoseconds of the wall clock.
  unfoldable pub new : List Secret → PoolPolicy → ℕ → Result KeyPool PoolError
  unfolding with_jitter default_jitter
  new keys policy clock_nanos = with_jitter keys policy (default_jitter clock_nanos)

  -- The entry of a key after a reload: `old` is searched for its fingerprint.
  unfoldable pub carried_entry : List KeyEntry → Secret → KeyEntry
  carried_entry old key =
      let fp = fingerprint sha256 key.as_str in
      let prev = find_entry fp old in
      record {
        key = key;
        fingerprint = fp;
        status_id = key_suffix key.as_str;
        cooling_until = elim prev [ none ↦ none | some e ↦ e.cooling_until ];
        cooling_reason = elim prev [ none ↦ none | some e ↦ e.cooling_reason ];
        cooling_by = elim prev [ none ↦ none | some e ↦ e.cooling_by ];
        consecutive_failures = elim prev [ none ↦ 0 | some e ↦ e.consecutive_failures ];
        backoff_step = elim prev [ none ↦ 0 | some e ↦ e.backoff_step ];
        last_failure_by = elim prev [ none ↦ none | some e ↦ e.last_failure_by ];
        half_open = is_some_and prev (λ e. e.half_open);
        liveness_cooling = elim prev [ none ↦ [] | some e ↦ e.liveness_cooling ];
      }

  unfoldable pub replace_keys : KeyPool → List Secret → Result KeyPool PoolError
  unfolding carried_entry
  replace_keys p keys = do
    nonempty keys
    let entries = map (carried_entry p.entries) keys
    ok (record p { entries = entries; cursor = min p.cursor (length entries - 1) })

unfoldable pub has_available_key : KeyPool → ℕ → Bool
has_available_key p now = any (λ e. not (is_cooling now e)) p.entries
