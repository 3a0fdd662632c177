-- ===== src/Pool/History/Invariant.antt =====
-- What every history of the pool of src/pool.rs keeps.
use mathlib.Core.Path.{subst}
use orihsus.Prelude.{
  insert, ℕ, ◌+◌, ◌%◌, ◌≤◌, ◌≡◌, inl, inr, String, List, [], ◌∷◌, map, All, ok, >>=-eq-ok, Ensures,
  arith, Option-cases,
}
use orihsus.Config.Secret.{Secret}
use orihsus.Pool.Policy.{PoolPolicy, validate, max_cooldown, deadline_after}
use orihsus.Pool.Jitter.{Jitter, u64_mod}
use orihsus.Pool.Entry.{KeyEntry, find_entry, update_entry}
use orihsus.Pool.Entry.Search.{All-update_entry, length-update_entry, All-find_entry}
use orihsus.Pool.State.{KeyPool, fresh_entry, carried_entry, with_jitter, replace_keys}
use orihsus.Pool.Attempts.{RequestAttempts, Selection, claim, after_select}
use orihsus.Pool.Attempts.Select.{try_select_unused_lem}
use orihsus.Pool.Report.{
  Failure, fail, proactive, succeed, report_success, report_failure, report_proactive_cooldown,
  report_liveness_failure,
}
use orihsus.Pool.History.Valid.{
  EntryIsValid, IsValid, insert-All, fail-valid, proactive-valid, apply-IsValid, claim-valid,
  succeed-valid, fresh-valid, carried-valid,
}
use orihsus.Pool.History.{
  Event, selects, succeeds, fails, overuses, loses_liveness, reloads, Before, step, run,
}

module _ (sha256 : String → List ℕ) (now : ℕ) where
  All-map_of {ℓ} :
      {A : Type ℓ} (f : A → KeyEntry) (xs : List A)
      → ((x : A) → EntryIsValid now (f x))
      → All (EntryIsValid now) (map f xs)
  All-map_of f [] h = tt
  All-map_of f (x ∷ xs) h = (h x, All-map_of f xs h)

  replace_keys-IsValid :
      (p : KeyPool) (keys : List Secret)
      → IsValid now p
      → IsValid now (step sha256 p (reloads keys))
  unfolding step replace_keys
  replace_keys-IsValid p [] v = v
  replace_keys-IsValid p (key ∷ keys) v = record {
    cursor_in_range = omega arith;
    entries_valid =
        All-map_of (carried_entry sha256 p.entries) (key ∷ keys)
          (λ k. carried-valid sha256 now p.entries k v.entries_valid);
  }

  select-IsValid :
      (p : KeyPool) (t : ℕ) (r : RequestAttempts)
      → t ≤ now
      → IsValid now p
      → IsValid now (step sha256 p (selects t r))
  unfolding step after_select
  select-IsValid p t r le v = elim (try_select_unused_lem p r t) [
    | inl (nothing, _) ↦ rw (nothing, step) v
    | inr (c, _, _, chosen, _, _, _) ↦
        rw (chosen, step)
          (record {
            cursor_in_range = omega (
              arith,
              length-update_entry c.fingerprint (claim p t p.next_id) p.entries,
              v.cursor_in_range,
            );
            entries_valid =
                All-update_entry c.fingerprint (claim p t p.next_id) (EntryIsValid now) p.entries
                  v.entries_valid (λ e found h. claim-valid p now t p.next_id e le h);
          })
  ]

  update-IsValid :
      (p : KeyPool) (fp : String) (f : KeyEntry → KeyEntry)
      → ((e : KeyEntry) → EntryIsValid now e → EntryIsValid now (f e))
      → IsValid now p
      → IsValid now (record p { entries = update_entry fp f p.entries })
  update-IsValid p fp f keeps v = record {
    cursor_in_range = omega (arith, length-update_entry fp f p.entries, v.cursor_in_range);
    entries_valid =
        All-update_entry fp f (EntryIsValid now) p.entries v.entries_valid (λ e found h. keeps e h);
  }

  fails-IsValid :
      (p : KeyPool) (t : ℕ) (sel : Selection) (failure : Failure)
      → t ≤ now
      → IsValid now p
      → IsValid now (report_failure p t sel failure)
  unfolding report_failure
  fails-IsValid p t sel failure le v = elim (Option-cases (find_entry sel.fingerprint p.entries)) [
    | inl absent ↦ rw (absent, report_failure) v
    | inr (e, found) ↦
        rw (found, report_failure)
          (apply-IsValid p now t sel.fingerprint (fail p.policy p.jitter_source t sel.id failure e)
            v
            (fail-valid p.policy p.jitter_source now t sel.id failure e le
              (All-find_entry (EntryIsValid now) sel.fingerprint p.entries v.entries_valid found)))
  ]

  overuses-IsValid :
      (p : KeyPool) (t : ℕ) (fp : String) (cooldown : ℕ)
      → t ≤ now
      → IsValid now p
      → IsValid now (report_proactive_cooldown p t fp cooldown)
  unfolding report_proactive_cooldown
  overuses-IsValid p t fp cooldown le v = elim (Option-cases (find_entry fp p.entries)) [
    | inl absent ↦ rw (absent, report_proactive_cooldown) v
    | inr (e, found) ↦
        rw (found, report_proactive_cooldown)
          (apply-IsValid (record p { next_id = (p.next_id + 1) % u64_mod }) now t fp
            (proactive p.jitter_source t p.next_id cooldown e)
            (record { cursor_in_range = v.cursor_in_range; entries_valid = v.entries_valid })
            (proactive-valid p.jitter_source now t p.next_id cooldown e le
              (All-find_entry (EntryIsValid now) fp p.entries v.entries_valid found)))
  ]

  liveness-valid :
      (t : ℕ) (model : String) (cooldown : ℕ) (e : KeyEntry)
      → t ≤ now
      → EntryIsValid now e
      → EntryIsValid now (record e {
        liveness_cooling = insert model (deadline_after t cooldown) e.liveness_cooling;
      })
  unfolding deadline_after
  liveness-valid t model cooldown e le v = record {
    bounded = v.bounded;
    labelled = v.labelled;
    recovering = v.recovering;
    liveness = insert-All (now + max_cooldown) _ model e.liveness_cooling (omega arith) v.liveness;
  }

  -- One operation, whose reading of the clock is at most `now`, keeps the pool valid: the cursor in
  -- range, every cooldown at most `MAX_COOLDOWN` ahead of `now` and with its reason and owner, and a
  -- recovering key with a deadline.
  pub step-IsValid :
      (p : KeyPool) (ev : Event) → Before now ev → IsValid now p → IsValid now (step sha256 p ev)
  unfolding step
  step-IsValid p (selects t r) le v = select-IsValid p t r le v
  step-IsValid p (succeeds sel) le v =
      unfold report_success in
      update-IsValid p sel.fingerprint (succeed sel.id) (succeed-valid now sel.id) v
  step-IsValid p (fails t sel failure) le v = fails-IsValid p t sel failure le v
  step-IsValid p (overuses t fp cooldown) le v = overuses-IsValid p t fp cooldown le v
  step-IsValid p (loses_liveness t sel model) le v =
      unfold report_liveness_failure in
      update-IsValid p sel.fingerprint _
        (λ e h. liveness-valid t model p.policy.backoff_initial e le h) v
  step-IsValid p (reloads keys) le v = replace_keys-IsValid p keys v

  pub run-IsValid :
      (p : KeyPool) (evs : List Event)
      → All (Before now) evs
      → IsValid now p
      → IsValid now (run sha256 p evs)
  unfolding run
  run-IsValid p [] b v = v
  run-IsValid p (ev ∷ evs) b v = run-IsValid (step sha256 p ev) evs b.1 (step-IsValid p ev b.0 v)

  with_jitter-IsValid :
      (keys : List Secret) (policy : PoolPolicy) (source : Jitter) {p : KeyPool}
      → with_jitter sha256 keys policy source ≡ ok p
      → IsValid now p
  unfolding with_jitter
  with_jitter-IsValid [] policy source built =
      let (_, _, rest) = >>=-eq-ok (validate policy) _ built in cc
  with_jitter-IsValid (key ∷ keys) policy source built =
      let (_, _, rest) = >>=-eq-ok (validate policy) _ built in
      subst (Ensures (IsValid now)) rest (record {
        cursor_in_range = omega arith;
        entries_valid = All-map_of (fresh_entry sha256) (key ∷ keys) (fresh-valid sha256 now);
      })

  -- For a pool that `with_jitter` builds and every history of operations whose readings of the clock
  -- are at most `now`, the resulting pool is valid: its cursor is in range, every cooldown, of a key or
  -- of a model on it, lies at most `MAX_COOLDOWN` ahead of `now`, a key's cooldown has its reason and
  -- owner, and every recovering key has a deadline.
  pub run-with_jitter-IsValid :
      (keys : List Secret) (policy : PoolPolicy) (source : Jitter) {p : KeyPool} (evs : List Event)
      → with_jitter sha256 keys policy source ≡ ok p
      → All (Before now) evs
      → IsValid now (run sha256 p evs)
  run-with_jitter-IsValid keys policy source evs built before =
      run-IsValid _ evs before (with_jitter-IsValid keys policy source built)
