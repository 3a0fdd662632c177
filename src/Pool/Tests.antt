-- ===== src/Pool/Tests.antt =====
-- Concrete pools for the theorems on src/pool.rs.
pub mod Reports
pub mod Requests
pub mod Histories
use orihsus.Prelude.{ℕ, String, Bool, true, false, Option, none, some, List, [], ◌∷◌}
use orihsus.Pool.Policy.{PoolPolicy}
use orihsus.Pool.Jitter.{no_jitter}
use orihsus.Pool.Entry.{KeyEntry, CoolingReason, circuit_breaker}
use orihsus.Pool.State.{KeyPool}
use orihsus.Pool.Attempts.{Selection}

abbrev pub small_policy : PoolPolicy
small_policy = record {
  backoff_initial = 100;
  backoff_max = 1000;
  breaker_threshold = 3;
  breaker_cooldown = 5000;
  wait_timeout = 30000;
  max_attempts = 2;
}

-- A key that has nothing against it, and one that recovers from the breaker at 50.
abbrev pub well : KeyEntry
well = record {
  key = record { as_str = "key-b" };
  fingerprint = "bb";
  status_id = "key-b";
  cooling_until = none;
  cooling_reason = none;
  cooling_by = none;
  consecutive_failures = 0;
  backoff_step = 0;
  last_failure_by = none;
  half_open = false;
  liveness_cooling = [];
}

abbrev pub recovering : KeyEntry
recovering = record {
  key = record { as_str = "key-a" };
  fingerprint = "aa";
  status_id = "key-a";
  cooling_until = some 50;
  cooling_reason = some circuit_breaker;
  cooling_by = some 3;
  consecutive_failures = 0;
  backoff_step = 0;
  last_failure_by = some 3;
  half_open = true;
  liveness_cooling = [];
}

abbrev pub two_keys : KeyPool
two_keys = record {
  entries = recovering ∷ well ∷ [];
  cursor = 0;
  policy = small_policy;
  jitter_source = no_jitter;
  next_id = 7;
}

-- A selection of the recovering key.
abbrev pub selection : ℕ → Selection
selection id = record { fingerprint = "aa"; key = record { as_str = "key-a" }; id = id }
