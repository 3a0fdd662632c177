-- ===== src/Gateway/Store.antt =====
-- `RuntimeState` and `RuntimeStore` of src/gateway.rs. The store is the state that its lock guards;
-- each operation holds the lock, so it is a function. The URL is a parameter.
use orihsus.Prelude.{ℕ, String, List, Result, ok, err}
use orihsus.Config.Secret.{Secret}
use orihsus.Config.Types.{GatewayKey}
use orihsus.Pool.Policy.{PoolError}
use orihsus.Pool.State.{KeyPool, replace_keys}

pub record RuntimeState (U : Type 0) : Type 0 where
  pub gateway_keys : List GatewayKey
  pub base_url : U
  pub max_body_bytes : ℕ
  pub key_aliases : List (String × String)
  pub models : List String

-- What the lock of `RuntimeStore` guards, and the pool that its users replace under that lock.
pub record RuntimeStore (U : Type 0) : Type 0 where
  pub inner : RuntimeState U
  pub pool : KeyPool

module _ {U : Type 0} where
  unfoldable pub update_models : RuntimeStore U → List String → RuntimeStore U
  update_models store models = record store { inner = record store.inner { models = models } }

  -- A refusal of the pool leaves the store as it was.
  abbrev published : RuntimeState U → Result KeyPool PoolError → Result (RuntimeStore U) PoolError
  published state (err e) = err e
  published state (ok pool) = ok (record { inner = state; pool = pool })

  unfoldable pub update_with_keys :
      (String → List ℕ)
      → RuntimeStore U
      → List Secret
      → RuntimeState U
      → Result (RuntimeStore U) PoolError
  unfolding replace_keys
  update_with_keys sha256 store keys state = published state (replace_keys sha256 store.pool keys)
