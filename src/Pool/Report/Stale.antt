-- ===== src/Pool/Report/Stale.antt =====
-- What a report of success does in src/pool.rs, by the age of its selection.
use native.Mathlib.Decide.{dec_lt}
use orihsus.Prelude.{
  ℕ, ◌<◌, ◌≡◌, refl, ap, ◌∙◌, ◌⊎◌, inl, inr, String, false, none, some, List, [], ◌∷◌, arith,
  Option-cases, Bool-cases, str_eq, if◌then◌else◌, eq_iff,
}
use orihsus.Pool.Entry.{KeyEntry, find_entry, update_entry}
use orihsus.Pool.Entry.Search.{find_entry-fingerprint, find_entry-update_entry, found_once}
use orihsus.Pool.State.{KeyPool}
use orihsus.Pool.Attempts.{Selection}
use orihsus.Pool.Report.{succeed, report_success}

-- The entry of a key that has nothing against it.
abbrev pub IsHealthy : KeyEntry → Type 0
IsHealthy e =
    (e.cooling_until ≡ none)
    × (e.cooling_reason ≡ none)
    × (e.cooling_by ≡ none)
    × (e.consecutive_failures ≡ 0)
    × (e.backoff_step ≡ 0)
    × (e.last_failure_by ≡ none)
    × (e.half_open ≡ false)

update_entry_id :
    (fp : String) (f : KeyEntry → KeyEntry) (es : List KeyEntry) {e : KeyEntry}
    → find_entry fp es ≡ some e
    → f e ≡ e
    → update_entry fp f es ≡ es
unfolding update_entry
update_entry_id fp f [] h s = refl
update_entry_id fp f (x ∷ es) {e} h s = elim (Bool-cases (str_eq x.fingerprint fp)) [
  | inl same ↦
      rw same (ap (λ y. y ∷ es) (found_once (λ y. f y ≡ y) (some x) (rw same at h) s x refl))
  | inr other ↦ rw (other, update_entry_id fp f es (rw other at h) s)
]

-- A newer report has changed the entry than the selection `id`.
abbrev pub IsStale : ℕ → KeyEntry → Type 0
IsStale id e = (newer : ℕ) × (e.last_failure_by ≡ some newer) × (id < newer)

-- What a success of `sel` comes to where its key has the entry `e`.
abbrev pub Cleared : KeyPool → KeyPool → Selection → KeyEntry → Type 0
Cleared p p' sel e =
    (e' : KeyEntry) × IsHealthy e'
    × (e'.key ≡ e.key)
    × (e'.liveness_cooling ≡ e.liveness_cooling)
    × ((q : String)
        → find_entry q p'.entries
          ≡ (if str_eq sel.fingerprint q then some e' else find_entry q p.entries))

IsStale-cases : (id : ℕ) (e : KeyEntry) → IsStale id e ⊎ (¬ IsStale id e)
IsStale-cases id e = elim (Option-cases e.last_failure_by) [
  | inl never ↦ inr (λ h. cc (never, h.1))
  | inr (newer, last) ↦ elim (dec_lt id newer) [
    | yes older ↦ inl (newer, last, older)
    | no current ↦ inr (λ h. current (ground (arith, h.1, h.2)))
  ]
]

succeed_current :
    (id : ℕ) (e : KeyEntry)
    → ¬ IsStale id e
    → IsHealthy (succeed id e)
      × ((succeed id e).key ≡ e.key)
      × ((succeed id e).fingerprint ≡ e.fingerprint)
      × ((succeed id e).liveness_cooling ≡ e.liveness_cooling)
unfolding succeed
succeed_current id e current = elim (Option-cases e.last_failure_by) [
  | inl never ↦ ground arith
  | inr (newer, last) ↦ let fresh : ¬ (id < newer) = λ h. current (newer, last, h) in ground arith
]

pub stale_success :
    (p : KeyPool) (sel : Selection) {e : KeyEntry}
    → find_entry sel.fingerprint p.entries ≡ some e
    → IsStale sel.id e
    → report_success p sel ≡ p
unfolding report_success
stale_success p sel {e} found (newer, last, older) =
    ap (λ es. record p { entries = es })
      (update_entry_id sel.fingerprint (succeed sel.id) p.entries found (ground arith))

current_success :
    (p : KeyPool) (sel : Selection) {e : KeyEntry}
    → find_entry sel.fingerprint p.entries ≡ some e
    → ¬ IsStale sel.id e
    → Cleared p (report_success p sel) sel e
unfolding report_success
current_success p sel {e} found current =
    let (healthy, key, fp, liveness) = succeed_current sel.id e current in
    let keeps = fp ∙ find_entry-fingerprint sel.fingerprint p.entries found in
    let only_e =
      found_once (λ x. (succeed sel.id x).fingerprint ≡ sel.fingerprint)
        (find_entry sel.fingerprint p.entries) found keeps in
    (
      succeed sel.id e,
      healthy,
      key,
      liveness,
      λ q. ground (
        arith,
        find_entry-update_entry sel.fingerprint (succeed sel.id) p.entries q only_e,
        found,
        eq_iff sel.fingerprint q,
      ),
    )

pub report_success_lem :
    (p : KeyPool) (sel : Selection) {e : KeyEntry}
    → find_entry sel.fingerprint p.entries ≡ some e
    → (IsStale sel.id e × (report_success p sel ≡ p))
      ⊎ (¬ IsStale sel.id e × Cleared p (report_success p sel) sel e)
report_success_lem p sel {e} found = elim (IsStale-cases sel.id e) [
  | inl stale ↦ inl (stale, stale_success p sel found stale)
  | inr current ↦ inr (current, current_success p sel found current)
]
