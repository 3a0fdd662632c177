-- ===== src/Pool/History/Keys.antt =====
-- The keys of the pool of src/pool.rs across a history: only a reload changes them.
use orihsus.Prelude.{
  ℕ, ◌≡◌, refl, ◌∙◌, inl, inr, String, List, [], ◌∷◌, map, All, arith, Bool-cases, is_some_and, ltb,
}
use orihsus.Config.Secret.{Secret}
use orihsus.Pool.Entry.{KeyEntry}
use orihsus.Pool.Entry.Search.{Pointwise, Pointwise-refl, Pointwise-update_entry}
use orihsus.Pool.State.{KeyPool}
use orihsus.Pool.Attempts.{claim, after_select}
use orihsus.Pool.Attempts.Select.{try_select_unused_lem}
use orihsus.Pool.Report.{succeed, report_success, report_liveness_failure}
use orihsus.Pool.Report.Cooling.{Extends, report_failure-Extends, report_proactive_cooldown-Extends}
use orihsus.Pool.History.{
  Event, selects, succeeds, fails, overuses, loses_liveness, reloads, step, run,
}

abbrev pub keys_of : KeyPool → List Secret
keys_of p = map (λ e. e.key) p.entries

abbrev SameKey : KeyEntry → KeyEntry → Type 0
SameKey e e' = e'.key ≡ e.key

-- The operations that requests and the usage monitor call.
abbrev pub IsNoReload : Event → Type 0
IsNoReload (reloads keys) = ⊥
IsNoReload ev = Unit

same_keys :
    (xs ys : List KeyEntry) → Pointwise SameKey xs ys → map (λ e. e.key) ys ≡ map (λ e. e.key) xs
same_keys [] [] h = refl
same_keys (x ∷ xs) (y ∷ ys) h = λ i. h.0 i ∷ same_keys xs ys h.1 i
same_keys [] (y ∷ ys) h = absurd h
same_keys (x ∷ xs) [] h = absurd h

of_Extends :
    (now : ℕ) (xs ys : List KeyEntry) → Pointwise (Extends now) xs ys → Pointwise SameKey xs ys
of_Extends now [] [] h = tt
of_Extends now (x ∷ xs) (y ∷ ys) h = (h.0.same_key, of_Extends now xs ys h.1)
of_Extends now [] (y ∷ ys) h = absurd h
of_Extends now (x ∷ xs) [] h = absurd h

claim-SameKey : (p : KeyPool) (now id : ℕ) (e : KeyEntry) → SameKey e (claim p now id e)
unfolding claim
claim-SameKey p now id e = ground arith

succeed-SameKey : (id : ℕ) (e : KeyEntry) → SameKey e (succeed id e)
unfolding succeed
succeed-SameKey id e = elim (Bool-cases (is_some_and e.last_failure_by (λ newer. ltb id newer))) [
  | inl stale ↦ rw stale refl
  | inr fresh ↦ rw fresh refl
]

step-SameKey :
    (sha256 : String → List ℕ) (p : KeyPool) (ev : Event)
    → IsNoReload ev
    → Pointwise SameKey p.entries (step sha256 p ev).entries
unfolding step report_liveness_failure report_success after_select
step-SameKey sha256 p (selects t r) q = elim (try_select_unused_lem p r t) [
  | inl (nothing, _) ↦ rw (nothing, step) (Pointwise-refl SameKey (λ e. refl) p.entries)
  | inr (c, _, _, chosen, _, _, _) ↦
      rw (chosen, step)
        (Pointwise-update_entry c.fingerprint _ SameKey (λ e. refl) p.entries
          (λ e found. claim-SameKey p t p.next_id e))
]
step-SameKey sha256 p (succeeds sel) q =
    Pointwise-update_entry sel.fingerprint _ SameKey (λ e. refl) p.entries
      (λ e found. succeed-SameKey sel.id e)
step-SameKey sha256 p (fails t sel failure) q =
    of_Extends t p.entries _ (report_failure-Extends p t sel failure)
step-SameKey sha256 p (overuses t fp cooldown) q =
    of_Extends t p.entries _ (report_proactive_cooldown-Extends p t fp cooldown)
step-SameKey sha256 p (loses_liveness t sel model) q =
    Pointwise-update_entry sel.fingerprint _ SameKey (λ e. refl) p.entries (λ e found. refl)
step-SameKey sha256 p (reloads keys) q = absurd q

pub run-keys_of :
    (sha256 : String → List ℕ) (p : KeyPool) (evs : List Event)
    → All IsNoReload evs
    → keys_of (run sha256 p evs) ≡ keys_of p
unfolding run
run-keys_of sha256 p [] q = refl
run-keys_of sha256 p (ev ∷ evs) q =
    run-keys_of sha256 (step sha256 p ev) evs q.1
    ∙ same_keys p.entries (step sha256 p ev).entries (step-SameKey sha256 p ev q.0)
