-- ===== src/App/Accepted.antt =====
-- A configuration that src/config.rs accepts is one that `assemble` of src/app.rs can build from.
use orihsus.Prelude.{ℕ, ◌≤◌, ◌<◌, ◌≡◌, refl, String, some, List, [], ◌∷◌, length, map, ok, arith}
use orihsus.Semaphore.{SemaphoreOps, SemaphoreLaws}
use mathlib.Core.Path.{subst}
use orihsus.Config.Limits.{u32_max}
use orihsus.Queue.Accounted.{new_queue-Accounted}
use orihsus.Config.Raw.{RawConfig}
use orihsus.Config.Secret.{Secret}
use orihsus.Config.Types.{Config, KeyFailureHandling}
use orihsus.Config.Load.{Platform, try_from}
use orihsus.Config.Load.Valid.{try_from-valid}
use orihsus.Config.Handling.Bounds.{HandlingIsValid}
use orihsus.Config.Limits.Bounds.{LimitsAreValid}
use orihsus.Pool.Policy.{PoolPolicy, validate, max_cooldown, wait_timeout_default}
use orihsus.Pool.Jitter.{default_jitter}
use orihsus.Pool.State.{KeyPool, new, with_jitter, fresh_entry}
use orihsus.Queue.{AdmissionQueue, new_queue}
use orihsus.App.{to_u32, policy_of, BodyBudget, new_budget, budget_of, Runtime, assemble, with_pool}

accepted_policy :
    (h : KeyFailureHandling)
    → HandlingIsValid h
    → (p : PoolPolicy) × (policy_of h ≡ some p)
      × (validate p ≡ ok tt)
      × (p.backoff_max ≤ max_cooldown)
unfolding policy_of to_u32 validate
accepted_policy h v = (policy, ground arith, ground arith, v.backoff_capped)
  where
    policy : PoolPolicy
    policy = record {
      backoff_initial = h.backoff_initial;
      backoff_max = h.backoff_max;
      breaker_threshold = h.breaker_threshold;
      breaker_cooldown = h.breaker_cooldown;
      wait_timeout = wait_timeout_default;
      max_attempts = h.max_attempts;
    }

new_pool :
    (sha256 : String → List ℕ) (keys : List Secret) (p : PoolPolicy) (clock_nanos : ℕ)
    → 0 < length keys
    → validate p ≡ ok tt
    → (pool : KeyPool) × (new sha256 keys p clock_nanos ≡ ok pool) × (pool.policy ≡ p)
unfolding new with_jitter
new_pool sha256 [] p clock_nanos some_key passes = absurd (omega arith)
new_pool sha256 (k ∷ ks) p clock_nanos some_key passes =
    (pool, rw (passes, new, with_jitter) refl, refl)
  where
    pool : KeyPool
    pool = record {
      entries = map (fresh_entry sha256) (k ∷ ks);
      cursor = 0;
      policy = p;
      jitter_source = default_jitter clock_nanos;
      next_id = 0;
    }

module _ {S : Type 0} (ops : SemaphoreOps S) (laws : SemaphoreLaws ops) where
  accepted_queue :
      (max_concurrency max_queue wait : ℕ)
      → 0 < max_concurrency
      → 0 < wait
      → max_concurrency ≤ ops.max_permits
      → max_queue ≤ ops.max_permits
      → (q : AdmissionQueue S) × (new_queue ops max_concurrency max_queue wait ≡ some q)
  accepted_queue max_concurrency max_queue wait some_request some_wait fits queue_fits =
      let (q, built, _, _) =
        new_queue-Accounted ops laws max_concurrency max_queue wait some_request some_wait fits
          queue_fits in
      (q, built)

  fits : {a b c : ℕ} → a ≤ b → b ≤ c → a ≤ c
  fits first second = omega arith

  accepted_budget :
      (c : Config)
      → LimitsAreValid ops.max_permits c.limits
      → u32_max ≤ ops.max_permits
      → (b : BodyBudget S) × (budget_of ops c ≡ some b)
        × (b.permits_per_request ≤ b.capacity)
        × (ops.available b.sem ≡ b.capacity)
  unfolding budget_of new_budget to_u32
  accepted_budget c v roomy =
      let (s, s_new, s_all, s_open, s_line, s_handed) =
        laws.new_law c.limits.max_inflight_body_bytes (fits v.budget_fits roomy) in
      (
        record {
          sem = s;
          permits_per_request = c.limits.max_body_bytes;
          capacity = c.limits.max_inflight_body_bytes;
        },
        ground (arith, v, s_new),
        v.body_in_budget,
        s_all,
      )

  -- From a configuration that `Config::try_from` accepts, `assemble` builds the pool, the queue and
  -- the body budget: no check of the pool refuses, no `expect` or assert fails, and no semaphore is
  -- too large, if the bound on permits that validation uses is the semaphore's and is at least
  -- `u32::MAX`. The pool's backoff is at most `MAX_COOLDOWN`, and a request's body fits the budget.
  pub accepted-assembles :
      (platform : Platform) (raw : RawConfig) (c : Config) (clock_nanos : ℕ)
      → platform.max_permits ≡ ops.max_permits
      → u32_max ≤ ops.max_permits
      → try_from platform raw ≡ ok c
      → (r : Runtime S) × (assemble ops platform.sha256 c clock_nanos ≡ some (ok r))
        × (r.pool.policy.backoff_max ≤ max_cooldown)
        × (r.body_budget.permits_per_request ≤ r.body_budget.capacity)
  unfolding assemble with_pool
  accepted-assembles platform raw c clock_nanos same roomy accepted =
      let v = try_from-valid platform raw c accepted in
      let limits : LimitsAreValid ops.max_permits c.limits =
        subst (λ n. LimitsAreValid n c.limits) same v.request_limits in
      let (p, p_ok, passes, capped) = accepted_policy c.key_failure_handling v.handling in
      let (pool, pool_ok, keeps) =
        new_pool platform.sha256 c.keys p clock_nanos v.upstream.some_upstream passes in
      let (q, q_ok) =
        accepted_queue c.limits.max_concurrency c.limits.max_queue c.limits.queue_wait_timeout
          limits.some_request limits.some_wait limits.concurrency_permits limits.queue_permits in
      let (b, b_ok, fits, all) = accepted_budget c limits roomy in
      (
        record { pool = pool; queue = q; body_budget = b },
        rw (p_ok, pool_ok, q_ok, b_ok, assemble, with_pool) refl,
        rw keeps capped,
        fits,
      )
