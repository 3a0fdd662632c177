-- ===== src/App/Tests.antt =====
-- The assembly of src/app.rs from a small configuration.
use orihsus.Prelude.{◌≤◌, ◌≡◌, ◌^◌, ◌-◌, refl, some, ok, arith}
use orihsus.Semaphore.Fifo.{Fifo, fifo, fifo_laws}
use orihsus.Config.Tests.{platform, raw_config, accepted, is_accepted}
use orihsus.Pool.Policy.{max_cooldown}
use orihsus.App.{Runtime, assemble}
use orihsus.App.Accepted.{accepted-assembles}

accepted-assembles_example :
    (r : Runtime Fifo) × (assemble (fifo (2 ^ 61 - 1)) platform.sha256 accepted 99 ≡ some (ok r))
    × (r.pool.policy.backoff_max ≤ max_cooldown)
    × (r.body_budget.permits_per_request ≤ r.body_budget.capacity)
accepted-assembles_example =
    accepted-assembles (fifo (2 ^ 61 - 1)) (fifo_laws (2 ^ 61 - 1)) platform raw_config accepted 99
      refl (omega arith) is_accepted
