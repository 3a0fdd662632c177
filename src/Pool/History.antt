-- ===== src/Pool/History.antt =====
-- Histories of the pool of src/pool.rs: any order of the operations that change it, as the lock of
-- the state lets them through.
pub mod Keeps
pub mod Keys
pub mod Valid
pub mod Invariant
pub mod Probe
use orihsus.Prelude.{ℕ, ◌≤◌, String, Option, none, some, List, [], ◌∷◌, ok, err}
use orihsus.Config.Secret.{Secret}
use orihsus.Pool.State.{KeyPool, replace_keys}
use orihsus.Pool.Attempts.{Selection, RequestAttempts, try_select_unused}
use orihsus.Pool.Report.{
  Failure, report_success, report_failure, report_proactive_cooldown, report_liveness_failure,
}

-- An operation with the reading of the clock that it makes.
pub data Event : Type 0 where
  selects : ℕ → RequestAttempts → Event
  succeeds : Selection → Event
  fails : ℕ → Selection → Failure → Event
  overuses : ℕ → String → ℕ → Event
  loses_liveness : ℕ → Selection → String → Event
  reloads : List Secret → Event

-- Whether the operation read the clock no later than at `now`.
abbrev pub Before : ℕ → Event → Type 0
Before now (selects t r) = t ≤ now
Before now (succeeds sel) = Unit
Before now (fails t sel failure) = t ≤ now
Before now (overuses t fp cooldown) = t ≤ now
Before now (loses_liveness t sel model) = t ≤ now
Before now (reloads keys) = Unit

unfoldable pub step : (String → List ℕ) → KeyPool → Event → KeyPool
step sha256 p (selects t r) = elim (try_select_unused p r t) [ none ↦ p | some (_, p') ↦ p' ]
step sha256 p (succeeds sel) = report_success p sel
step sha256 p (fails t sel failure) = report_failure p t sel failure
step sha256 p (overuses t fp cooldown) = report_proactive_cooldown p t fp cooldown
step sha256 p (loses_liveness t sel model) = report_liveness_failure p t sel model
step sha256 p (reloads keys) = elim (replace_keys sha256 p keys) [ ok p' ↦ p' | err _ ↦ p ]

unfoldable pub run : (String → List ℕ) → KeyPool → List Event → KeyPool
run sha256 p [] = p
run sha256 p (ev ∷ evs) = run sha256 (step sha256 p ev) evs
