-- ===== src/Pool/Report/Late.antt =====
-- What a late report of a network failure does to the report order of src/pool.rs.
use mathlib.Core.Option
use orihsus.Prelude.{
  ℕ, ◌+◌, ◌%◌, ◌<◌, ◌≡◌, refl, sym, ap, ◌∙◌, inl, inr, Option, some, arith, eq_refl,
}
use orihsus.Pool.Entry.{KeyEntry, find_entry}
use orihsus.Pool.Entry.Search.{find_entry-fingerprint, find_entry-update_self}
use orihsus.Pool.State.{KeyPool}
use orihsus.Pool.Attempts.{Selection}
use orihsus.Pool.Report.{network, u32_mod, fail, report_failure, report_success}
use orihsus.Pool.Report.Stale.{IsHealthy, report_success_lem, stale_success}

-- Below the threshold a network failure only counts, under the id of its own selection.
counted :
    (p : KeyPool) (now id : ℕ) (e : KeyEntry)
    → (e.consecutive_failures + 1) % u32_mod < p.policy.breaker_threshold
    → (fail p.policy p.jitter_source now id network e).entry ≡ record e {
      consecutive_failures = (e.consecutive_failures + 1) % u32_mod;
      last_failure_by = some id;
    }
unfolding fail
counted p now id e below = ground arith

found_after :
    (p : KeyPool) (now : ℕ) (sel : Selection) {e : KeyEntry}
    → find_entry sel.fingerprint p.entries ≡ some e
    → (e.consecutive_failures + 1) % u32_mod < p.policy.breaker_threshold
    → find_entry sel.fingerprint (report_failure p now sel network).entries
      ≡ some (record e {
        consecutive_failures = (e.consecutive_failures + 1) % u32_mod;
        last_failure_by = some sel.id;
      })
unfolding report_failure
found_after p now sel {e} found below =
    let effect = fail p.policy p.jitter_source now sel.id network e in
    let entry = counted p now sel.id e below in
    let keeps : effect.entry.fingerprint ≡ sel.fingerprint =
      ap (λ x. x.fingerprint) entry ∙ find_entry-fingerprint sel.fingerprint p.entries found in
    rw (found, report_failure)
      (find_entry-update_self sel.fingerprint (λ _. effect.entry) p.entries found keeps
        ∙ ap {B = Option KeyEntry} some entry)

cleared_after :
    (p : KeyPool) (sel : Selection) (id : ℕ) {e : KeyEntry}
    → find_entry sel.fingerprint p.entries ≡ some e
    → e.last_failure_by ≡ some id
    → id < sel.id
    → (e' : KeyEntry) × (find_entry sel.fingerprint (report_success p sel).entries ≡ some e')
      × IsHealthy e'
cleared_after p sel id found last lt = elim (report_success_lem p sel found) [
  | inl ((newer, last', later), _) ↦
      let same : newer ≡ id = Option.some-injective newer id (sym last' ∙ last) in
      absurd (omega arith)
  | inr (_, (e', healthy, _, _, at)) ↦
      (e', at sel.fingerprint ∙ ground (arith, eq_refl sel.fingerprint), healthy)
]

-- A success of `mid` is ignored on a key last claimed or failed by a newer selection. But let a
-- network failure of a still older selection be reported first, below the breaker threshold: then the
-- same success clears the cooldown, the claim and the half-open mark of the newer selection.
pub late_failure_reopens :
    (p : KeyPool) (now : ℕ) (old mid : Selection) {e : KeyEntry} {newest : ℕ}
    → old.fingerprint ≡ mid.fingerprint
    → find_entry mid.fingerprint p.entries ≡ some e
    → e.last_failure_by ≡ some newest
    → old.id < mid.id
    → mid.id < newest
    → (e.consecutive_failures + 1) % u32_mod < p.policy.breaker_threshold
    → (report_success p mid ≡ p)
      × ((e' : KeyEntry) × (find_entry mid.fingerprint
              (report_success (report_failure p now old network) mid).entries
            ≡ some e')
          × IsHealthy e')
late_failure_reopens p now old mid {e} {newest} same found last lt lt' below =
    let found_old : find_entry old.fingerprint p.entries ≡ some e = rw same found in
    (
      stale_success p mid found (newest, last, lt'),
      cleared_after (report_failure p now old network) mid old.id
          (ap (λ q. find_entry q (report_failure p now old network).entries) (sym same)
            ∙ found_after p now old found_old below)
          refl lt,
    )
