-- ===== src/Pool/Report/Liveness.antt =====
-- What a liveness failure in src/pool.rs bars: one model on one key.
use mathlib.Core.Option
use text.Mathlib.TextEquality.{eq_iff}
use orihsus.Prelude.{
  ℕ, ◌<◌, ◌≡◌, ◌≢◌, refl, sym, ap, ◌∙◌, ◌⊎◌, inl, inr, String, true, false, some, arith, str_eq,
  insert, lookup-insert, Bool-cases, Option-cases, if◌then◌else◌,
}
use orihsus.Pool.Policy.{deadline_after}
use orihsus.Pool.Entry.{KeyEntry, find_entry}
use orihsus.Pool.Entry.Search.{find_entry-fingerprint, find_entry-update_entry}
use orihsus.Pool.State.{KeyPool}
use orihsus.Pool.Report.{report_liveness_failure}
use orihsus.Pool.Attempts.{Selection, RequestAttempts, RequestCandidate, selectable, model_cooling}

-- The entry with the model cooling until `d`.
abbrev barred : String → ℕ → KeyEntry → KeyEntry
barred model d e = record e { liveness_cooling = insert model d e.liveness_cooling }

barred_model :
    (model : String) (d later : ℕ) (r : RequestAttempts) (e : KeyEntry)
    → later < d
    → r.model ≡ some model
    → model_cooling r later (barred model d e) ≡ true
barred_model model d later r e early same =
    rw (same, lookup-insert model model d e.liveness_cooling) (ground (arith, eq_iff model model))

other_model :
    (model : String) (d later : ℕ) (r : RequestAttempts) (e : KeyEntry)
    → r.model ≢ some model
    → model_cooling r later (barred model d e) ≡ model_cooling r later e
other_model model d later r e other = elim (Option-cases r.model) [
  | inl without ↦ rw without refl
  | inr (m, at) ↦
      rw (at, lookup-insert model m d e.liveness_cooling)
        (ground (arith, eq_iff model m, at, other))
]

found_after :
    (p : KeyPool) (now : ℕ) (sel : Selection) (model fp : String)
    → find_entry fp (report_liveness_failure p now sel model).entries ≡ (
        if str_eq sel.fingerprint fp
        then Option.map
            (barred model (deadline_after now p.policy.backoff_initial))
            (find_entry fp p.entries)
        else find_entry fp p.entries)
unfolding report_liveness_failure
found_after p now sel model fp =
    find_entry-update_entry sel.fingerprint
      (barred model (deadline_after now p.policy.backoff_initial)) p.entries fp
      (λ e found. find_entry-fingerprint sel.fingerprint p.entries found)

model_cases :
    (r : RequestAttempts) (model : String) → (r.model ≡ some model) ⊎ (r.model ≢ some model)
model_cases r model = elim (Option-cases r.model) [
  | inl without ↦ inr (λ h. Option.none-ne-some model (sym without ∙ h))
  | inr (m, at) ↦ elim (Bool-cases (str_eq m model)) [
    | inl same ↦ inl (at ∙ ap some (ground (arith, eq_iff m model)))
    | inr differ ↦ inr (λ h.
        let same : m ≡ model = Option.some-injective m model (sym at ∙ h) in
        ground (arith, eq_iff m model))
  ]
]

-- Until the backoff after a liveness failure of a model on a key is over, no request for that model
-- can select that key. For every other model, for a request without a model and for every other key,
-- each candidate can be selected exactly if it could be before.
pub report_liveness_failure_lem :
    (p : KeyPool) (now : ℕ) (sel : Selection) (model : String) (r : RequestAttempts) (later : ℕ)
    (c : RequestCandidate)
    → later < deadline_after now p.policy.backoff_initial
    → let q = report_liveness_failure p now sel model in
      ((c.fingerprint ≡ sel.fingerprint)
        × (r.model ≡ some model)
        × (selectable q r later c ≡ false))
      ⊎ (((c.fingerprint ≢ sel.fingerprint) ⊎ (r.model ≢ some model))
          × (selectable q r later c ≡ selectable p r later c))
unfolding selectable
report_liveness_failure_lem p now sel model r later c early =
    let d = deadline_after now p.policy.backoff_initial in
    let after = found_after p now sel model c.fingerprint in
    elim (Bool-cases (str_eq sel.fingerprint c.fingerprint)) [
      | inr differ ↦
          inr (inl (λ h. ground (arith, eq_iff sel.fingerprint c.fingerprint)), ground arith)
      | inl same ↦
          let same_key : c.fingerprint ≡ sel.fingerprint =
            ground (arith, eq_iff sel.fingerprint c.fingerprint) in
          elim (Option-cases (find_entry c.fingerprint p.entries)) [
            | inl gone ↦ elim (model_cases r model) [
              | inl asked ↦ inl (same_key, asked, ground arith)
              | inr other ↦ inr (inr other, ground arith)
            ]
            | inr (e, found) ↦ elim (model_cases r model) [
              | inl asked ↦
                  inl (same_key, asked, ground (arith, barred_model model d later r e early asked))
              | inr other ↦ inr (inr other, ground (arith, other_model model d later r e other))
            ]
          ]
    ]
