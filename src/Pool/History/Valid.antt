-- ===== src/Pool/History/Valid.antt =====
-- A valid entry of the pool of src/pool.rs, and the changes of one entry that keep it so.
use orihsus.Prelude.{
  insert, ℕ, ◌+◌, ◌<◌, ◌≤◌, inl, inr, String, Bool, true, Option, none, some, List, [], ◌∷◌, length,
  All, arith, Option-cases,
}
use orihsus.Config.Secret.{Secret}
use orihsus.Audit.Fingerprint.{fingerprint}
use orihsus.Pool.Policy.{PoolPolicy, max_cooldown, deadline_after}
use orihsus.Pool.Jitter.{Jitter}
use orihsus.Pool.Entry.{KeyEntry, CoolingReason, find_entry, update_entry}
use orihsus.Pool.Entry.Search.{All-update_entry, length-update_entry, All-find_entry}
use orihsus.Pool.Cursor.Rotation.{advance_cursor-lt}
use orihsus.Pool.State.{KeyPool, fresh_entry, carried_entry}
use orihsus.Pool.Attempts.{claim}
use orihsus.Pool.Report.{
  Failure, usage_limited, rate_limited_for, unavailable_for, server, network, Effect, fail,
  proactive, apply, succeed,
}

-- A deadline, if there is one, is at most `bound`.
abbrev pub AtMost : ℕ → Option ℕ → Type 0
AtMost bound none = Unit
AtMost bound (some d) = d ≤ bound

-- A deadline, its reason and its owner are there together or not at all.
abbrev pub Labelled : Option ℕ → Option CoolingReason → Option ℕ → Type 0
Labelled none none none = Unit
Labelled (some d) (some reason) (some id) = Unit
Labelled _ _ _ = ⊥

-- A recovering key has a deadline.
abbrev pub Recovering : Bool → Option ℕ → Type 0
Recovering true none = ⊥
Recovering _ _ = Unit

pub record EntryIsValid (now : ℕ) (e : KeyEntry) : Type 0 where
  pub bounded : AtMost (now + max_cooldown) e.cooling_until
  pub labelled : Labelled e.cooling_until e.cooling_reason e.cooling_by
  pub recovering : Recovering e.half_open e.cooling_until
  pub liveness : All (λ kv. kv.1 ≤ now + max_cooldown) e.liveness_cooling

pub record IsValid (now : ℕ) (p : KeyPool) : Type 0 where
  pub cursor_in_range : p.cursor < length p.entries
  pub entries_valid : All (EntryIsValid now) p.entries

pub insert-All :
    (now d : ℕ) (m : String) (kvs : List (String × ℕ))
    → d ≤ now
    → All (λ kv. kv.1 ≤ now) kvs
    → All (λ kv. kv.1 ≤ now) (insert m d kvs)
unfolding insert
insert-All now d m [] le h = (le, tt)
insert-All now d m (kv ∷ kvs) le h = ground (arith, insert-All now d m kvs le h.1)

pub fail-valid :
    (policy : PoolPolicy) (j : Jitter) (now t id : ℕ) (failure : Failure) (e : KeyEntry)
    → t ≤ now
    → EntryIsValid now e
    → EntryIsValid now (fail policy j t id failure e).entry
unfolding fail deadline_after
fail-valid policy j now t id (usage_limited dimension cooldown) e le v = ground arith
fail-valid policy j now t id (rate_limited_for retry_after) e le v = ground arith
fail-valid policy j now t id (unavailable_for retry_after) e le v = ground arith
fail-valid policy j now t id server e le v = v
fail-valid policy j now t id network e le v = ground arith

pub proactive-valid :
    (j : Jitter) (now t id cooldown : ℕ) (e : KeyEntry)
    → t ≤ now
    → EntryIsValid now e
    → EntryIsValid now (proactive j t id cooldown e).entry
unfolding proactive deadline_after
proactive-valid j now t id cooldown e le v = ground arith

pub apply-IsValid :
    (p : KeyPool) (now t : ℕ) (fp : String) (effect : Effect)
    → IsValid now p
    → EntryIsValid now effect.entry
    → IsValid now (apply p t fp effect)
unfolding apply
apply-IsValid p now t fp effect v ok_entry = record {
  cursor_in_range =
      let entries = update_entry fp (λ _. effect.entry) p.entries in
      ground (
        arith,
        length-update_entry fp (λ _. effect.entry) p.entries,
        advance_cursor-lt entries t p.cursor,
      );
  entries_valid =
      All-update_entry fp (λ _. effect.entry) (EntryIsValid now) p.entries v.entries_valid
        (λ e found h. ok_entry);
}

pub claim-valid :
    (p : KeyPool) (now t id : ℕ) (e : KeyEntry)
    → t ≤ now
    → EntryIsValid now e
    → EntryIsValid now (claim p t id e)
unfolding claim deadline_after
claim-valid p now t id e le v = ground arith

pub succeed-valid :
    (now id : ℕ) (e : KeyEntry) → EntryIsValid now e → EntryIsValid now (succeed id e)
unfolding succeed
succeed-valid now id e v = ground arith

pub fresh-valid :
    (sha256 : String → List ℕ) (now : ℕ) (key : Secret) → EntryIsValid now (fresh_entry sha256 key)
unfolding fresh_entry
fresh-valid sha256 now key = record { bounded = tt; labelled = tt; recovering = tt; liveness = tt }

pub carried-valid :
    (sha256 : String → List ℕ) (now : ℕ) (old : List KeyEntry) (key : Secret)
    → All (EntryIsValid now) old
    → EntryIsValid now (carried_entry sha256 old key)
unfolding carried_entry
carried-valid sha256 now old key v =
    elim (Option-cases (find_entry (fingerprint sha256 key.as_str) old)) [
      | inl new ↦
          rw (new, carried_entry)
            (record { bounded = tt; labelled = tt; recovering = tt; liveness = tt })
      | inr (e, kept) ↦
          let e_valid =
            All-find_entry (EntryIsValid now) (fingerprint sha256 key.as_str) old v kept in
          rw (kept, carried_entry)
            (record {
              bounded = e_valid.bounded;
              labelled = e_valid.labelled;
              recovering = e_valid.recovering;
              liveness = e_valid.liveness;
            })
    ]
