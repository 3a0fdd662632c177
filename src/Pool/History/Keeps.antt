-- ===== src/Pool/History/Keeps.antt =====
-- Cooldowns of src/pool.rs across a history without a success and without a reload.
use orihsus.Prelude.{
  ℕ, ◌≡◌, refl, ◌∙◌, inl, inr, String, false, Option, none, some, List, [], ◌∷◌, All, arith, str_eq,
  Bool-cases,
}
use orihsus.Pool.Policy.{deadline_after}
use orihsus.Pool.Entry.{KeyEntry, is_cooling, find_entry}
use orihsus.Pool.Entry.Search.{Pointwise, Pointwise-refl, Pointwise-update_entry, found_once}
use orihsus.Pool.State.{KeyPool}
use orihsus.Pool.Attempts.{RequestCandidate, RequestAttempts, claim, after_select}
use orihsus.Pool.Attempts.Select.{Free, try_select_unused_lem}
use orihsus.Pool.Report.{report_liveness_failure}
use orihsus.Pool.Report.Cooling.{
  NoEarlier, NoEarlier-refl, Extends, report_failure-Extends, report_proactive_cooldown-Extends,
}
use orihsus.Pool.History.{
  Event, selects, succeeds, fails, overuses, loses_liveness, reloads, step, run,
}

-- The same key, with a deadline at least as late.
abbrev pub Keeps : KeyEntry → KeyEntry → Type 0
Keeps e e' = (e'.fingerprint ≡ e.fingerprint) × NoEarlier e.cooling_until e'.cooling_until

abbrev pub IsQuiet : Event → Type 0
IsQuiet (succeeds sel) = ⊥
IsQuiet (reloads keys) = ⊥
IsQuiet ev = Unit

Keeps-refl : (e : KeyEntry) → Keeps e e
Keeps-refl e = (refl, NoEarlier-refl e.cooling_until)

NoEarlier-trans : (a b c : Option ℕ) → NoEarlier a b → NoEarlier b c → NoEarlier a c
NoEarlier-trans none b c h k = tt
NoEarlier-trans (some a) (some b) (some c) h k = omega arith
NoEarlier-trans (some a) none c h k = absurd h
NoEarlier-trans (some a) (some b) none h k = absurd k

Keeps-all_trans :
    (xs ys zs : List KeyEntry)
    → Pointwise Keeps xs ys
    → Pointwise Keeps ys zs
    → Pointwise Keeps xs zs
Keeps-all_trans [] [] [] h k = tt
Keeps-all_trans (x ∷ xs) (y ∷ ys) (z ∷ zs) h k = (
  (k.0.0 ∙ h.0.0, NoEarlier-trans x.cooling_until y.cooling_until z.cooling_until h.0.1 k.0.1),
  Keeps-all_trans xs ys zs h.1 k.1,
)
Keeps-all_trans [] (y ∷ ys) zs h k = absurd h
Keeps-all_trans (x ∷ xs) [] zs h k = absurd h
Keeps-all_trans [] [] (z ∷ zs) h k = absurd k
Keeps-all_trans (x ∷ xs) (y ∷ ys) [] h k = absurd k

Keeps-of_Extends :
    (now : ℕ) (xs ys : List KeyEntry) → Pointwise (Extends now) xs ys → Pointwise Keeps xs ys
Keeps-of_Extends now [] [] h = tt
Keeps-of_Extends now (x ∷ xs) (y ∷ ys) h =
    ((h.0.same_fingerprint, h.0.no_earlier), Keeps-of_Extends now xs ys h.1)
Keeps-of_Extends now [] (y ∷ ys) h = absurd h
Keeps-of_Extends now (x ∷ xs) [] h = absurd h

pub find_entry-Keeps :
    (fp : String) (xs ys : List KeyEntry) {e : KeyEntry}
    → Pointwise Keeps xs ys
    → find_entry fp xs ≡ some e
    → (e' : KeyEntry) × (find_entry fp ys ≡ some e') × Keeps e e'
find_entry-Keeps fp [] [] h found = cc
find_entry-Keeps fp (x ∷ xs) (y ∷ ys) {e} h found = elim (Bool-cases (str_eq x.fingerprint fp)) [
  | inl same ↦
      (y, rw (h.0.0, same), found_once (λ z. Keeps z y) (some x) refl h.0 e (rw same at found))
  | inr other ↦ rw (h.0.0, other) (find_entry-Keeps fp xs ys h.1 (rw other at found))
]
find_entry-Keeps fp [] (y ∷ ys) h found = absurd h
find_entry-Keeps fp (x ∷ xs) [] h found = absurd h

-- A key is claimed only when its deadline has passed.
claim-Keeps :
    (p : KeyPool) (now id : ℕ) (e : KeyEntry)
    → is_cooling now e ≡ false
    → Keeps e (claim p now id e)
unfolding claim deadline_after
claim-Keeps p now id e ready = ground (arith, NoEarlier-refl e.cooling_until)

after_select-Keeps :
    (p : KeyPool) (r : RequestAttempts) (now : ℕ) (c : RequestCandidate)
    → Free p r now c
    → Pointwise Keeps p.entries (after_select p now c).entries
unfolding after_select
after_select-Keeps p r now c (_, e, found, ready, _) =
    Pointwise-update_entry c.fingerprint (claim p now p.next_id) Keeps Keeps-refl p.entries (
      found_once (λ x. Keeps x (claim p now p.next_id x)) (find_entry c.fingerprint p.entries) found
        (claim-Keeps p now p.next_id e ready))

step-Keeps :
    (sha256 : String → List ℕ) (p : KeyPool) (ev : Event)
    → IsQuiet ev
    → Pointwise Keeps p.entries (step sha256 p ev).entries
unfolding step report_liveness_failure
step-Keeps sha256 p (selects t r) q = elim (try_select_unused_lem p r t) [
  | inl (nothing, _) ↦ rw (nothing, step) (Pointwise-refl Keeps Keeps-refl p.entries)
  | inr (c, _, _, chosen, _, free, _) ↦ rw (chosen, step) (after_select-Keeps p r t c free)
]
step-Keeps sha256 p (fails t sel failure) q =
    Keeps-of_Extends t p.entries _ (report_failure-Extends p t sel failure)
step-Keeps sha256 p (overuses t fp cooldown) q =
    Keeps-of_Extends t p.entries _ (report_proactive_cooldown-Extends p t fp cooldown)
step-Keeps sha256 p (loses_liveness t sel model) q =
    Pointwise-update_entry sel.fingerprint _ Keeps Keeps-refl p.entries (λ e found. Keeps-refl e)
step-Keeps sha256 p (succeeds sel) q = absurd q
step-Keeps sha256 p (reloads keys) q = absurd q

-- Across a history without a success and without a reload, each key stays in its place and its
-- cooldown never ends earlier.
pub run-Keeps :
    (sha256 : String → List ℕ) (p : KeyPool) (evs : List Event)
    → All IsQuiet evs
    → Pointwise Keeps p.entries (run sha256 p evs).entries
unfolding run
run-Keeps sha256 p [] q = Pointwise-refl Keeps Keeps-refl p.entries
run-Keeps sha256 p (ev ∷ evs) q =
    Keeps-all_trans p.entries (step sha256 p ev).entries _ (step-Keeps sha256 p ev q.0)
      (run-Keeps sha256 (step sha256 p ev) evs q.1)
