-- ===== src/Pool/Report/Cooling.antt =====
-- The reports of failure in src/pool.rs never shorten a cooldown, and touch one key only.
use orihsus.Prelude.{
  ℕ, ◌+◌, ◌%◌, ◌≤◌, ◌≡◌, refl, ◌⊎◌, inl, inr, String, Option, none, some, arith, Option-cases,
}
use orihsus.Pool.Policy.{PoolPolicy, max_cooldown, deadline_after}
use orihsus.Pool.Jitter.{Jitter, u64_mod}
use orihsus.Pool.Entry.{KeyEntry, find_entry}
use orihsus.Pool.Entry.Search.{Pointwise, Pointwise-refl, Pointwise-update_entry, found_once}
use orihsus.Pool.State.{KeyPool}
use orihsus.Pool.Attempts.{Selection}
use orihsus.Pool.Report.{
  Failure, usage_limited, rate_limited_for, unavailable_for, server, network, Effect, fail,
  proactive, apply, report_failure, report_proactive_cooldown,
}

-- The second deadline is no earlier than the first.
abbrev pub NoEarlier : Option ℕ → Option ℕ → Type 0
NoEarlier none d = Unit
NoEarlier (some a) none = ⊥
NoEarlier (some a) (some b) = a ≤ b

pub NoEarlier-refl : (d : Option ℕ) → NoEarlier d d
NoEarlier-refl none = tt
NoEarlier-refl (some a) = omega arith

-- One entry is the other with a deadline at least as late, and no more than `MAX_COOLDOWN` ahead
-- of `now` if it is a new one.
pub record Extends (now : ℕ) (e e' : KeyEntry) : Type 0 where
  pub same_key : e'.key ≡ e.key
  pub same_fingerprint : e'.fingerprint ≡ e.fingerprint
  pub same_status_id : e'.status_id ≡ e.status_id
  pub no_earlier : NoEarlier e.cooling_until e'.cooling_until
  pub bounded :
      (e'.cooling_until ≡ e.cooling_until)
      ⊎ ((d : ℕ) × (e'.cooling_until ≡ some d) × (now ≤ d) × (d ≤ now + max_cooldown))

Extends-refl : (now : ℕ) (e : KeyEntry) → Extends now e e
Extends-refl now e = record {
  same_key = refl;
  same_fingerprint = refl;
  same_status_id = refl;
  no_earlier = NoEarlier-refl e.cooling_until;
  bounded = inl refl;
}

fail-Extends :
    (policy : PoolPolicy) (j : Jitter) (now id : ℕ) (failure : Failure) (e : KeyEntry)
    → Extends now e (fail policy j now id failure e).entry
unfolding fail deadline_after
fail-Extends policy j now id (usage_limited dimension cooldown) e =
    ground (arith, Extends-refl now e)
fail-Extends policy j now id (rate_limited_for retry_after) e = ground (arith, Extends-refl now e)
fail-Extends policy j now id (unavailable_for retry_after) e = ground (arith, Extends-refl now e)
fail-Extends policy j now id server e = Extends-refl now e
fail-Extends policy j now id network e = ground (arith, Extends-refl now e)

proactive-Extends :
    (j : Jitter) (now id cooldown : ℕ) (e : KeyEntry)
    → Extends now e (proactive j now id cooldown e).entry
unfolding proactive deadline_after
proactive-Extends j now id cooldown e = ground (arith, Extends-refl now e)

apply-Extends :
    (p : KeyPool) (now : ℕ) (fp : String) (effect : Effect) {e : KeyEntry}
    → find_entry fp p.entries ≡ some e
    → Extends now e effect.entry
    → Pointwise (Extends now) p.entries (apply p now fp effect).entries
unfolding apply
apply-Extends p now fp effect found h =
    Pointwise-update_entry fp (λ _. effect.entry) (Extends now) (Extends-refl now) p.entries
      (found_once (λ x. Extends now x effect.entry) (find_entry fp p.entries) found h)

-- A report of failure leaves every entry in its place, with its key, and with a deadline that is no
-- earlier than before and, if new, lies between `now` and `MAX_COOLDOWN` ahead of it.
pub report_failure-Extends :
    (p : KeyPool) (now : ℕ) (sel : Selection) (failure : Failure)
    → Pointwise (Extends now) p.entries (report_failure p now sel failure).entries
unfolding report_failure
report_failure-Extends p now sel failure =
    elim (Option-cases (find_entry sel.fingerprint p.entries)) [
      | inl absent ↦
          rw (absent, report_failure) (Pointwise-refl (Extends now) (Extends-refl now) p.entries)
      | inr (e, found) ↦
          rw (found, report_failure)
            (apply-Extends p now sel.fingerprint
              (fail p.policy p.jitter_source now sel.id failure e) found
              (fail-Extends p.policy p.jitter_source now sel.id failure e))
    ]

-- A proactive report leaves every entry in its place, with its key, and with a deadline that is no
-- earlier than before and, if new, lies between `now` and `MAX_COOLDOWN` ahead of it.
pub report_proactive_cooldown-Extends :
    (p : KeyPool) (now : ℕ) (fp : String) (cooldown : ℕ)
    → Pointwise (Extends now) p.entries (report_proactive_cooldown p now fp cooldown).entries
unfolding report_proactive_cooldown
report_proactive_cooldown-Extends p now fp cooldown =
    elim (Option-cases (find_entry fp p.entries)) [
      | inl absent ↦
          rw (absent, report_proactive_cooldown)
            (Pointwise-refl (Extends now) (Extends-refl now) p.entries)
      | inr (e, found) ↦
          rw (found, report_proactive_cooldown)
            (apply-Extends (record p { next_id = (p.next_id + 1) % u64_mod }) now fp
              (proactive p.jitter_source now p.next_id cooldown e) found
              (proactive-Extends p.jitter_source now p.next_id cooldown e))
    ]
