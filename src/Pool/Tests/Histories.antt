-- ===== src/Pool/Tests/Histories.antt =====
-- The theorems on the histories of src/pool.rs, at concrete pools.
use orihsus.Prelude.{ℕ, ◌≢◌, refl, arith, String, List, [], ◌∷◌}
use orihsus.Pool.State.{KeyPool, with_jitter, fresh_entry}
use orihsus.Pool.Policy.{validate, deadline_after}
use orihsus.Config.Secret.{Secret}
use orihsus.Pool.Jitter.{no_jitter}
use orihsus.Pool.Attempts.{
  Selection, request, try_select_unused, selectable, after_select, selection_of, claim,
  request_with_model, candidates_from,
}
use orihsus.Pool.Report.{network, report_failure, fail, apply}
use orihsus.Pool.Cursor.{advance_cursor}
use orihsus.Pool.Entry.{update_entry}
use orihsus.Pool.History.{Event, selects, succeeds, fails, overuses, step, run}
use orihsus.Pool.History.Valid.{IsValid}
use orihsus.Pool.History.Invariant.{run-with_jitter-IsValid}
use orihsus.Pool.History.Probe.{probe_exclusive}
use orihsus.Pool.Tests.{small_policy, recovering, two_keys, selection}

abbrev digest : String → List ℕ
digest s = 1 ∷ 2 ∷ 3 ∷ 4 ∷ 5 ∷ 6 ∷ []

abbrev one_key : List Secret
one_key = record { as_str = "key-a" } ∷ []

abbrev busy : List Event
busy =
    selects 10 (request two_keys 5)
    ∷ fails 20 (selection 0) network
    ∷ overuses 30 "010203040506" 500
    ∷ succeeds (selection 9)
    ∷ []

abbrev failing : List Event
failing = fails 70 (selection 5) network ∷ selects 80 (request two_keys 5) ∷ []

abbrev fresh_pool : KeyPool
fresh_pool = record two_keys {
  entries = fresh_entry digest (record { as_str = "key-a" }) ∷ [];
  next_id = 0;
}

run-with_jitter-IsValid_example : IsValid 40 (run digest fresh_pool busy)
unfolding with_jitter validate
run-with_jitter-IsValid_example =
    run-with_jitter-IsValid digest 40 one_key small_policy no_jitter busy refl
      (omega arith, (omega arith, (omega arith, (tt, tt))))

-- The key that the request at 95 gets.
abbrev other : Selection
other = record { fingerprint = "bb"; key = record { as_str = "key-b" }; id = 9 }

probe_exclusive_example : other.fingerprint ≢ (selection 7).fingerprint
unfolding try_select_unused selectable after_select selection_of claim request_with_model
    candidates_from run step report_failure fail apply update_entry advance_cursor deadline_after
probe_exclusive_example =
    probe_exclusive digest two_keys (request two_keys 55) 60 {sel = selection 7} {e = recovering}
      refl refl refl failing (tt, (tt, tt)) (request two_keys 90) 95 {sel' = other} (omega arith)
      refl
