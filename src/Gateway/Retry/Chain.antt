-- ===== src/Gateway/Retry/Chain.antt =====
-- The list of attempt summaries that the loop of `proxy_request` in src/gateway.rs keeps.
use orihsus.Prelude.{
  ℕ, suc, ◌<◌, ◌≡◌, refl, sym, ap, ◌∙◌, String, true, false, none, some, List, [], ◌∷◌, ◌++◌, map,
  length, ltb, if◌then◌else◌, arith,
}
use orihsus.Audit.Summary.{AttemptSummary, push_summary, update_last}
use orihsus.Gateway.Retry.{set_target, link_previous, commit}
use orihsus.Gateway.Upstream.{PreparedResponse}

abbrev pub fingerprint_of : AttemptSummary → String
fingerprint_of s = s.key_fingerprint

-- An attempt that may still be followed by another.
abbrev pub IsPrecommit : AttemptSummary → Type 0
IsPrecommit s = (s.precommit ≡ true) × (s.committed ≡ false)

-- While the loop runs: no attempt is committed, and each but the last names the key of the next.
abbrev pub IsOpen : List AttemptSummary → Type 0
IsOpen [] = Unit
IsOpen (s ∷ []) = IsPrecommit s × (s.failover_target ≡ none)
IsOpen (s ∷ t ∷ rest) =
    IsPrecommit s × (s.failover_target ≡ some t.key_fingerprint) × IsOpen (t ∷ rest)

-- When it has ended: as before, but the last may be committed.
abbrev pub IsClosed : List AttemptSummary → Type 0
IsClosed [] = Unit
IsClosed (s ∷ []) = s.failover_target ≡ none
IsClosed (s ∷ t ∷ rest) =
    IsPrecommit s × (s.failover_target ≡ some t.key_fingerprint) × IsClosed (t ∷ rest)

pub IsOpen-IsClosed : (ss : List AttemptSummary) → IsOpen ss → IsClosed ss
IsOpen-IsClosed [] h = tt
IsOpen-IsClosed (s ∷ []) h = h.1
IsOpen-IsClosed (s ∷ t ∷ rest) h = (h.0, h.1, IsOpen-IsClosed (t ∷ rest) h.2)

-- A change of what was observed only.
pub record Observes (f : AttemptSummary → AttemptSummary) : Type 0 where
  pub key : (s : AttemptSummary) → (f s).key_fingerprint ≡ s.key_fingerprint
  pub precommit : (s : AttemptSummary) → (f s).precommit ≡ s.precommit
  pub committed : (s : AttemptSummary) → (f s).committed ≡ s.committed
  pub target : (s : AttemptSummary) → (f s).failover_target ≡ s.failover_target

-- The head of a list whose last element is changed.
pub update_last-keys :
    (f : AttemptSummary → AttemptSummary) (ss : List AttemptSummary)
    → ((s : AttemptSummary) → (f s).key_fingerprint ≡ s.key_fingerprint)
    → map fingerprint_of (update_last f ss) ≡ map fingerprint_of ss
unfolding update_last
update_last-keys f [] k = refl
update_last-keys f (s ∷ []) k = ap (λ x. x ∷ []) (k s)
update_last-keys f (s ∷ t ∷ rest) k = ap (◌∷◌ s.key_fingerprint) (update_last-keys f (t ∷ rest) k)

pub update_last-IsOpen :
    (f : AttemptSummary → AttemptSummary) (ss : List AttemptSummary)
    → Observes f
    → IsOpen ss
    → IsOpen (update_last f ss)
unfolding update_last
update_last-IsOpen f [] o h = tt
update_last-IsOpen f (s ∷ []) o h =
    ((o.precommit s ∙ h.0.0, o.committed s ∙ h.0.1), o.target s ∙ h.1)
update_last-IsOpen f (s ∷ t ∷ []) o h =
    (h.0, h.1 ∙ ap some (sym (o.key t)), update_last-IsOpen f (t ∷ []) o h.2)
update_last-IsOpen f (s ∷ t ∷ u ∷ rest) o h = (h.0, h.1, update_last-IsOpen f (t ∷ u ∷ rest) o h.2)

abbrev targeted : String → AttemptSummary → AttemptSummary
targeted fingerprint s = record s { failover_target = some fingerprint }

link_previous-targeted :
    (fingerprint : String) (s : AttemptSummary)
    → s.precommit ≡ true
    → s.failover_target ≡ none
    → link_previous fingerprint s ≡ targeted fingerprint s
link_previous-targeted fingerprint s p n =
    ap (set_target fingerprint s) n ∙ ap (λ b. if b then targeted fingerprint s else s) p

-- A new attempt behind a list of open ones.
pub linked-IsOpen :
    (ss : List AttemptSummary) (new : AttemptSummary)
    → IsPrecommit new
    → new.failover_target ≡ none
    → IsOpen ss
    → IsOpen (update_last (link_previous new.key_fingerprint) ss ++ new ∷ [])
unfolding update_last
linked-IsOpen [] new p n h = (p, n)
linked-IsOpen (s ∷ []) new p n h =
    let same = link_previous-targeted new.key_fingerprint s h.0.0 h.1 in
    (
      (ap (λ x. x.precommit) same ∙ h.0.0, ap (λ x. x.committed) same ∙ h.0.1),
      ap (λ x. x.failover_target) same,
      (p, n),
    )
linked-IsOpen (s ∷ t ∷ []) new p n h =
    let same = link_previous-targeted new.key_fingerprint t h.2.0.0 h.2.1 in
    (h.0, h.1 ∙ ap (λ x. some x.key_fingerprint) (sym same), linked-IsOpen (t ∷ []) new p n h.2)
linked-IsOpen (s ∷ t ∷ u ∷ rest) new p n h = (h.0, h.1, linked-IsOpen (t ∷ u ∷ rest) new p n h.2)

pub commit-IsClosed :
    (prepared : PreparedResponse) (ss : List AttemptSummary)
    → IsOpen ss
    → IsClosed (update_last (commit prepared) ss)
unfolding update_last commit
commit-IsClosed prepared [] h = tt
commit-IsClosed prepared (s ∷ []) h = h.1
commit-IsClosed prepared (s ∷ t ∷ []) h = (h.0, h.1, h.2.1)
commit-IsClosed prepared (s ∷ t ∷ u ∷ rest) h =
    (h.0, h.1, commit-IsClosed prepared (t ∷ u ∷ rest) h.2)

-- The keys of the attempts, with one more attempt while there is room for it.
pub linked-keys :
    (ss : List AttemptSummary) (new : AttemptSummary)
    → IsOpen ss
    → map fingerprint_of (update_last (link_previous new.key_fingerprint) ss ++ new ∷ [])
      ≡ map fingerprint_of ss ++ new.key_fingerprint ∷ []
unfolding update_last
linked-keys [] new h = refl
linked-keys (s ∷ []) new h =
    let same = link_previous-targeted new.key_fingerprint s h.0.0 h.1 in
    ap (λ x. x.key_fingerprint ∷ new.key_fingerprint ∷ []) same
linked-keys (s ∷ t ∷ rest) new h = ap (◌∷◌ s.key_fingerprint) (linked-keys (t ∷ rest) new h.2)

pub length-update_last :
    (f : AttemptSummary → AttemptSummary) (ss : List AttemptSummary)
    → length (update_last f ss) ≡ length ss
unfolding update_last
length-update_last f [] = refl
length-update_last f (s ∷ []) = refl
length-update_last f (s ∷ t ∷ rest) = ap suc (length-update_last f (t ∷ rest))

pub push_summary-room :
    (ss : List AttemptSummary) (new : AttemptSummary)
    → length ss < 2
    → push_summary ss new ≡ ss ++ new ∷ []
unfolding push_summary
push_summary-room ss new h = rw (room (length ss) h) refl
  where
    room : (n : ℕ) → n < 2 → ltb n 2 ≡ true
    room n h = ground arith
