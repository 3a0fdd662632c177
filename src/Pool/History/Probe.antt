-- ===== src/Pool/History/Probe.antt =====
-- The half-open probe of src/pool.rs: one request at a time, and how a late report breaks that.
use mathlib.Core.Option
use mathlib.Core.Bool.{false≢true}
use orihsus.Prelude.{
  ℕ, ◌<◌, ◌≡◌, ◌≢◌, ap, sym, ◌∙◌, inl, inr, String, true, false, some, List, All, arith,
}
use orihsus.Pool.Policy.{deadline_after}
use orihsus.Pool.Entry.{KeyEntry, is_cooling, find_entry}
use orihsus.Pool.Entry.Search.{find_entry-fingerprint, find_entry-update_self, found_once}
use orihsus.Pool.State.{KeyPool}
use orihsus.Pool.Attempts.{
  Selection, RequestCandidate, RequestAttempts, claim, after_select, selection_of,
  try_select_unused,
}
use orihsus.Pool.Attempts.Select.{try_select_unused_lem}
use orihsus.Pool.Report.Cooling.{NoEarlier}
use orihsus.Pool.History.{Event, run}
use orihsus.Pool.History.Keeps.{IsQuiet, find_entry-Keeps, run-Keeps}

-- A selection names a key that the pool has and that is not cooling.
selected_ready :
    (p : KeyPool) (r : RequestAttempts) (now : ℕ) {sel : Selection} {p' : KeyPool}
    → try_select_unused p r now ≡ some (sel, p')
    → (c : RequestCandidate) × (e : KeyEntry) × (find_entry sel.fingerprint p.entries ≡ some e)
      × (is_cooling now e ≡ false)
      × (c.fingerprint ≡ sel.fingerprint)
      × (p' ≡ after_select p now c)
unfolding selection_of
selected_ready p r now {sel} {p'} chosen = elim (try_select_unused_lem p r now) [
  | inl (nothing, _) ↦ absurd (Option.none-ne-some _ (sym nothing ∙ chosen))
  | inr (c, _, _, choice, _, (_, e, found, ready, _), _) ↦
      let same = Option.some-injective _ _ (sym choice ∙ chosen) in
      (
        c,
        e,
        rw (ap (λ t. t.0.fingerprint) (sym same)) found,
        ready,
        ap (λ t. t.0.fingerprint) same,
        ap (λ t. t.1) (sym same),
      )
]

still_cooling :
    (e e' : KeyEntry) (d later : ℕ)
    → e.cooling_until ≡ some d
    → NoEarlier e.cooling_until e'.cooling_until
    → later < d
    → is_cooling later e' ≡ true
still_cooling e e' d later at le lt = ground arith

-- The key that a selection claimed, with its deadline.
claimed :
    (p : KeyPool) (now : ℕ) (c : RequestCandidate) {e : KeyEntry}
    → find_entry c.fingerprint p.entries ≡ some e
    → e.half_open ≡ true
    → (e' : KeyEntry) × (find_entry c.fingerprint (after_select p now c).entries ≡ some e')
      × (e'.cooling_until ≡ some (deadline_after now p.policy.breaker_cooldown))
unfolding after_select claim
claimed p now c {e} found half = (
  claim p now p.next_id e,
  find_entry-update_self c.fingerprint (claim p now p.next_id) p.entries found
      (ground (arith, find_entry-fingerprint c.fingerprint p.entries found)),
  ground arith,
)

-- Once a selection has claimed a recovering key, no other request selects that key before the
-- deadline of the claim, whatever requests, failures and usage observations come between. A success
-- and a reload are left out.
pub probe_exclusive :
    (sha256 : String → List ℕ) (p : KeyPool) (r : RequestAttempts) (now : ℕ) {sel : Selection}
    {p' : KeyPool} {e : KeyEntry}
    → try_select_unused p r now ≡ some (sel, p')
    → find_entry sel.fingerprint p.entries ≡ some e
    → e.half_open ≡ true
    → (evs : List Event) → All IsQuiet evs
    → (r' : RequestAttempts) (later : ℕ) {sel' : Selection} {p'' : KeyPool}
    → later < deadline_after now p.policy.breaker_cooldown
    → try_select_unused (run sha256 p' evs) r' later ≡ some (sel', p'')
    → sel'.fingerprint ≢ sel.fingerprint
probe_exclusive sha256 p r now {sel} {p'} {e} chosen found half evs quiet r' later lt again same =
    let (c, _, _, _, at, next) = selected_ready p r now chosen in
    let (held, in_next, until) = claimed p now c {e = e} (rw at found) half in
    let in_pool : find_entry sel.fingerprint p'.entries ≡ some held = rw (next, ← at) in_next in
    let (kept, in_run, (_, late)) =
      find_entry-Keeps sel.fingerprint p'.entries (run sha256 p' evs).entries
        (run-Keeps sha256 p' evs quiet) in_pool in
    let (_, e2, at_run, ready, _, _) = selected_ready (run sha256 p' evs) r' later again in
    let cooling = still_cooling held kept _ later until late lt in
    let again_cooling =
      found_once (λ x. is_cooling later x ≡ true)
        (find_entry sel.fingerprint (run sha256 p' evs).entries) in_run cooling e2
        (ap (λ q. find_entry q (run sha256 p' evs).entries) (sym same) ∙ at_run) in
    false≢true (sym ready ∙ again_cooling)
