-- ===== src/Pool/Tests/Reports.antt =====
-- The theorems on the reports, the cursor, the backoff and the reload of src/pool.rs, at concrete pools.
use orihsus.Prelude.{
  ℕ, ◌+◌, ◌/◌, ◌-◌, ◌≤◌, ◌≡◌, ◌≢◌, ◌⊎◌, refl, min, arith, String, true, false, none, some, List, [],
  ◌∷◌, length, err, ok,
}
use orihsus.Time.{duration_max}
use orihsus.Config.Secret.{Secret}
use orihsus.Pool.Policy.{deadline_after, empty_keys}
use orihsus.Pool.Jitter.{no_jitter, uniform_jitter, jitter}
use orihsus.Pool.Jitter.Bounds.{jitter_bounds}
use orihsus.Pool.Entry.{find_entry, circuit_breaker}
use orihsus.Pool.Entry.Search.{Pointwise}
use orihsus.Pool.State.{KeyPool, replace_keys}
use orihsus.Pool.State.Reload.{AllCarried, replace_keys_lem}
use orihsus.Pool.Report.{network, fail, report_liveness_failure, report_success, report_failure}
use orihsus.Pool.Attempts.{RequestCandidate, RequestAttempts, request_for_model, selectable}
use orihsus.Pool.Report.Liveness.{report_liveness_failure_lem}
use orihsus.Pool.Report.Cooling.{Extends, report_failure-Extends}
use orihsus.Pool.Report.Stale.{IsHealthy}
use orihsus.Pool.Report.Breaker.{failures, breaker_trips_at_threshold}
use orihsus.Pool.Report.Late.{late_failure_reopens}
use orihsus.Pool.Tests.{small_policy, well, two_keys, selection}

report_failure-Extends_example :
    Pointwise
      (Extends 60)
      two_keys.entries
      (report_failure two_keys 60 (selection 7) network).entries
report_failure-Extends_example = report_failure-Extends two_keys 60 (selection 7) network

late_failure_reopens_example :
    (report_success two_keys (selection 2) ≡ two_keys)
    × ((e' : _) × (find_entry "aa"
            (report_success
              (report_failure two_keys 60 (selection 1) network)
              (selection 2)).entries
          ≡ some e')
        × IsHealthy e')
late_failure_reopens_example =
    late_failure_reopens two_keys 60 (selection 1) (selection 2) refl refl refl (omega arith)
      (omega arith) (omega arith)

breaker_trips_at_threshold_example :
    let waiting = failures small_policy no_jitter ((10, 7) ∷ (20, 8) ∷ []) well in
    let tripped = (fail small_policy no_jitter 30 9 network waiting).entry in
    (waiting.cooling_until ≡ none)
    × (waiting.half_open ≡ false)
    × (tripped.cooling_until ≡ some (deadline_after 30 5000))
    × (tripped.cooling_reason ≡ some circuit_breaker)
    × (tripped.half_open ≡ true)
    × (tripped.consecutive_failures ≡ 0)
breaker_trips_at_threshold_example =
    breaker_trips_at_threshold small_policy no_jitter ((10, 7) ∷ (20, 8) ∷ []) 30 9 well
      (omega arith) refl refl refl

jitter_bounds_example :
    (1000 ≤ (jitter (uniform_jitter (record { word = 5 })) 1000).0)
    × ((jitter (uniform_jitter (record { word = 5 })) 1000).0 ≤ min (1000 + 1000 / 2) duration_max)
jitter_bounds_example = jitter_bounds (uniform_jitter (record { word = 5 })) 1000 (omega arith)

abbrev digest : String → List ℕ
digest s = 1 ∷ 2 ∷ 3 ∷ 4 ∷ 5 ∷ 6 ∷ []

abbrev new_keys : List Secret
new_keys = record { as_str = "key-c" } ∷ []

replace_keys_lem_example :
    ((new_keys ≡ []) × (replace_keys digest two_keys new_keys ≡ err empty_keys))
    ⊎ ((p' : KeyPool) × (replace_keys digest two_keys new_keys ≡ ok p')
        × AllCarried digest two_keys.entries new_keys p'.entries
        × (p'.cursor ≡ min 0 (length new_keys - 1))
        × (p'.policy ≡ small_policy)
        × (p'.jitter_source ≡ no_jitter)
        × (p'.next_id ≡ 7))
replace_keys_lem_example = replace_keys_lem digest two_keys new_keys

-- A candidate for the key that fails, of a request for the model that it fails on.
abbrev candidate : RequestCandidate
candidate = record { fingerprint = "aa"; key = record { as_str = "key-a" } }

abbrev asking : RequestAttempts
asking = request_for_model two_keys 55 "small"

report_liveness_failure_lem_example :
    let q = report_liveness_failure two_keys 60 (selection 5) "small" in
    ((candidate.fingerprint ≡ (selection 5).fingerprint)
      × (asking.model ≡ some "small")
      × (selectable q asking 90 candidate ≡ false))
    ⊎ (((candidate.fingerprint ≢ (selection 5).fingerprint) ⊎ (asking.model ≢ some "small"))
        × (selectable q asking 90 candidate ≡ selectable two_keys asking 90 candidate))
unfolding deadline_after
report_liveness_failure_lem_example =
    report_liveness_failure_lem two_keys 60 (selection 5) "small" asking 90 candidate (omega arith)
