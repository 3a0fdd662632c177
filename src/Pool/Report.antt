-- ===== src/Pool/Report.antt =====
-- The reports of src/pool.rs: success, failure, proactive cooldown and lost liveness.
pub mod Stale
pub mod Cooling
pub mod Breaker
pub mod Late
pub mod Liveness
use orihsus.Prelude.{
  insert, ℕ, ◌+◌, ◌%◌, ◌^◌, min, String, Bool, true, false, not, Option, none, some, ltb, leb,
  is_some_and, if◌then◌else◌,
}
use orihsus.Pool.Policy.{PoolPolicy, deadline_after, backoff_at}
use orihsus.Pool.Jitter.{Jitter, jitter, u64_mod}
use orihsus.Pool.Entry.{
  KeyEntry, CoolingReason, proactive_usage, usage_limit, rate_limited, unavailable, circuit_breaker,
  find_entry, update_entry,
}
use orihsus.Pool.Cursor.{advance_cursor}
use orihsus.Pool.State.{KeyPool}
use orihsus.Pool.Attempts.{Selection}

pub data UsageDimension : Type 0 where
  weekly monthly five_hour : UsageDimension

pub data Failure : Type 0 where
  usage_limited : UsageDimension → ℕ → Failure
  rate_limited_for : Option ℕ → Failure
  unavailable_for : Option ℕ → Failure
  server : Failure
  network : Failure

abbrev pub u32_mod : ℕ
u32_mod = 2 ^ 32

-- `report_success` on the entry: nothing, if a newer report has changed it.
unfoldable pub succeed : ℕ → KeyEntry → KeyEntry
succeed id e = if is_some_and e.last_failure_by (λ newer. ltb id newer) then e else record e {
  cooling_until = none;
  cooling_reason = none;
  cooling_by = none;
  consecutive_failures = 0;
  backoff_step = 0;
  last_failure_by = none;
  half_open = false;
}

unfoldable pub report_success : KeyPool → Selection → KeyPool
unfolding succeed
report_success p sel = record p {
  entries = update_entry sel.fingerprint (succeed sel.id) p.entries;
}

-- `!cooling_until.is_some_and(|d| d > new_deadline)`: the report is not absorbed.
abbrev pub not_absorbed : KeyEntry → ℕ → Bool
not_absorbed e deadline = not (is_some_and e.cooling_until (λ d. ltb deadline d))

abbrev pub cool : KeyEntry → ℕ → CoolingReason → ℕ → KeyEntry
cool e deadline reason id = record e {
  cooling_until = some deadline;
  cooling_reason = some reason;
  cooling_by = some id;
  last_failure_by = some id;
}

-- What a report makes of an entry, whether it goes on to advance the cursor, and the jitter source.
pub record Effect : Type 0 where
  pub entry : KeyEntry
  pub advances : Bool
  pub source : Jitter

-- The cooldown of an ordinary failure, and whether the backoff chose it.
unfoldable pub ordinary_cooldown : PoolPolicy → Jitter → ℕ → Option ℕ → ℕ × Bool × Jitter
ordinary_cooldown policy j step none =
    let (d, j') = jitter j (backoff_at policy step) in (min d policy.backoff_max, true, j')
ordinary_cooldown policy j step (some ra) =
    let (d, j') = jitter j (backoff_at policy step) in
    if ltb 0 ra then (ra, false, j) else (min d policy.backoff_max, true, j')

unfoldable pub fail_ordinary :
    PoolPolicy → Jitter → ℕ → ℕ → CoolingReason → Option ℕ → KeyEntry → Effect
unfolding ordinary_cooldown
fail_ordinary policy j now id reason retry_after e =
    let (cooldown, backed_off, j') = ordinary_cooldown policy j e.backoff_step retry_after in
    let deadline = deadline_after now cooldown in
    let step = if backed_off then (e.backoff_step + 1) % u32_mod else e.backoff_step in
    if not_absorbed e deadline
    then record {
      entry = record (cool e deadline reason id) { backoff_step = step };
      advances = true;
      source = j';
    }
    else record { entry = e; advances = false; source = j' }

unfoldable pub fail_network : PoolPolicy → Jitter → ℕ → ℕ → KeyEntry → Effect
fail_network policy j now id e =
    let failures = (e.consecutive_failures + 1) % u32_mod in
    let counted = record e { consecutive_failures = failures; last_failure_by = some id } in
    let deadline = deadline_after now policy.breaker_cooldown in
    if leb policy.breaker_threshold failures
    then (if not_absorbed e deadline
        then record {
          entry = record counted {
            cooling_until = some deadline;
            cooling_reason = some circuit_breaker;
            cooling_by = some id;
            consecutive_failures = 0;
            half_open = true;
          };
          advances = true;
          source = j;
        }
        else record { entry = counted; advances = false; source = j })
    else record { entry = counted; advances = false; source = j }

unfoldable pub fail : PoolPolicy → Jitter → ℕ → ℕ → Failure → KeyEntry → Effect
unfolding fail_ordinary fail_network
fail policy j now id (usage_limited dimension cooldown) e =
    let deadline = deadline_after now cooldown in
    if not_absorbed e deadline
    then record { entry = cool e deadline usage_limit id; advances = true; source = j }
    else record { entry = e; advances = false; source = j }
fail policy j now id (rate_limited_for retry_after) e =
    fail_ordinary policy j now id rate_limited retry_after e
fail policy j now id (unavailable_for retry_after) e =
    fail_ordinary policy j now id unavailable retry_after e
fail policy j now id server e = record { entry = e; advances = false; source = j }
fail policy j now id network e = fail_network policy j now id e

-- The effect put into the pool.
unfoldable pub apply : KeyPool → ℕ → String → Effect → KeyPool
apply p now fp effect =
    let entries = update_entry fp (λ _. effect.entry) p.entries in
    record p {
      entries = entries;
      cursor = if effect.advances then advance_cursor entries now p.cursor else p.cursor;
      jitter_source = effect.source;
    }

unfoldable pub report_failure : KeyPool → ℕ → Selection → Failure → KeyPool
unfolding apply
report_failure p now sel failure = elim (find_entry sel.fingerprint p.entries) [
  | none ↦ p
  | some e ↦ apply p now sel.fingerprint (fail p.policy p.jitter_source now sel.id failure e)
]

unfoldable pub proactive : Jitter → ℕ → ℕ → ℕ → KeyEntry → Effect
proactive j now id cooldown e =
    let deadline = deadline_after now cooldown in
    if not_absorbed e deadline
    then record { entry = cool e deadline proactive_usage id; advances = true; source = j }
    else record { entry = e; advances = false; source = j }

-- The report takes an id of its own, also when it is absorbed.
unfoldable pub report_proactive_cooldown : KeyPool → ℕ → String → ℕ → KeyPool
unfolding apply proactive
report_proactive_cooldown p now fp cooldown = elim (find_entry fp p.entries) [
  | none ↦ p
  | some e ↦
      apply (record p { next_id = (p.next_id + 1) % u64_mod }) now fp
        (proactive p.jitter_source now p.next_id cooldown e)
]

unfoldable pub report_liveness_failure : KeyPool → ℕ → Selection → String → KeyPool
report_liveness_failure p now sel model =
    let deadline = deadline_after now p.policy.backoff_initial in
    record p {
      entries =
          update_entry sel.fingerprint
            (λ e. record e { liveness_cooling = insert model deadline e.liveness_cooling })
            p.entries;
    }
