-- ===== src/App.antt =====
-- The pure part of `assemble` in src/app.rs: the pool with its policy, the admission queue, and
-- `BodyBudget::new` of src/gateway.rs, built from the configuration. A panic is `none`.
pub mod Accepted
pub mod Tests
use orihsus.Prelude.{
  ℕ, ◌^◌, String, Bool, Option, none, some, List, Result, ok, err, ◌>>=◌, ltb, ◌==◌, if◌then◌else◌,
}
use orihsus.Config.Types.{Config, KeyFailureHandling}
use orihsus.Pool.Policy.{PoolPolicy, PoolError, wait_timeout_default}
use orihsus.Pool.State.{KeyPool, new}
use orihsus.Semaphore.{SemaphoreOps}
use orihsus.Queue.{AdmissionQueue, new_queue}

-- `u32::try_from(n).expect(…)`.
unfoldable pub to_u32 : ℕ → Option ℕ
to_u32 n = if ltb n (2 ^ 32) then some n else none

unfoldable pub policy_of : KeyFailureHandling → Option PoolPolicy
policy_of h = elim (to_u32 h.breaker_threshold) [
  | none ↦ none
  | some threshold ↦ some (record {
    backoff_initial = h.backoff_initial;
    backoff_max = h.backoff_max;
    breaker_threshold = threshold;
    breaker_cooldown = h.breaker_cooldown;
    wait_timeout = wait_timeout_default;
    max_attempts = h.max_attempts;
  })
]

pub record BodyBudget (S : Type 0) : Type 0 where
  pub sem : S
  pub permits_per_request : ℕ
  pub capacity : ℕ

pub record Runtime (S : Type 0) : Type 0 where
  pub pool : KeyPool
  pub queue : AdmissionQueue S
  pub body_budget : BodyBudget S

module _ {S : Type 0} (ops : SemaphoreOps S) where
  unfoldable pub new_budget : ℕ → ℕ → Option (BodyBudget S)
  new_budget capacity permits_per_request =
      if capacity == 0
      then none
      else if ltb capacity permits_per_request
      then none
      else elim (ops.new_semaphore capacity) [
        | none ↦ none
        | some sem ↦
            some
              (record { sem = sem; permits_per_request = permits_per_request; capacity = capacity })
      ]

  unfoldable pub budget_of : Config → Option (BodyBudget S)
  budget_of c = elim (to_u32 c.limits.max_body_bytes) [
    | none ↦ none
    | some permits ↦ new_budget c.limits.max_inflight_body_bytes permits
  ]

  -- What is left to build once the pool is there.
  unfoldable pub with_pool : Config → KeyPool → Option (Runtime S)
  unfolding budget_of
  with_pool c pool =
      elim (new_queue ops c.limits.max_concurrency c.limits.max_queue c.limits.queue_wait_timeout) [
        | none ↦ none
        | some queue ↦ elim (budget_of c) [
          | none ↦ none
          | some budget ↦ some (record { pool = pool; queue = queue; body_budget = budget })
        ]
      ]

  unfoldable pub assemble : (String → List ℕ) → Config → ℕ → Option (Result (Runtime S) PoolError)
  unfolding with_pool
  assemble sha256 c clock_nanos = elim (policy_of c.key_failure_handling) [
    | none ↦ none
    | some policy ↦ elim (new sha256 c.keys policy clock_nanos) [
      | err e ↦ some (err e)
      | ok pool ↦ elim (with_pool c pool) [ none ↦ none | some runtime ↦ some (ok runtime) ]
    ]
  ]
