-- ===== src/Gateway/Retry/Steps.antt =====
-- What one turn of the loop of `proxy_request` in src/gateway.rs keeps.
use mathlib.Core.Path.{subst}
use orihsus.Prelude.{
  ℕ, suc, ◌≤◌, ◌≡◌, refl, sym, ap, ◌∙◌, inl, inr, String, true, false, none, List, [], ◌∷◌, ◌++◌,
  map, length, length-append, length-map, ◌==◌, Bool-cases, Result, ok, err, Ensures, arith,
}
use orihsus.Pool.Report.{Failure}
use orihsus.Pool.Attempts.{Selection, RequestAttempts}
use orihsus.Pool.Attempts.Budget.{InBudget}
use orihsus.Audit.Summary.{
  AttemptTerminalReason, completed, response_header_timeout, network_error, retryable_response,
  forwarded, upstream_error, client_cancel, no_first_event, event_idle_timeout,
  end_before_first_event, AttemptSummary, push_summary, update_last,
}
use orihsus.Gateway.RateLimit.{JsonOps}
use orihsus.Gateway.Usage.{NumberOps}
use orihsus.Gateway.Sse.{Utf8}
use orihsus.Config.Types.{EventTimeouts}
use orihsus.Gateway.Upstream.{
  Response, ConsumedResponse, PreparedResponse, PrefetchFailure, prepare_response, prepared_from,
  Prefetch, Stream,
}
use orihsus.Gateway.Retry.{
  Turn, Loop, FinalOutcome, unavailable_final, last_response_final, forward, TurnResult, continues,
  breaks_with, waits, panics, RequestContext, link_previous, observe_consumed_error,
  observe_failure, commit, observe, report_prefetch, after_error, after_prepare,
  is_auth_unavailable, is_server_error, after_response,
}
use orihsus.Gateway.Retry.Chain.{
  fingerprint_of, IsPrecommit, IsOpen, IsClosed, Observes, update_last-keys, update_last-IsOpen,
  linked-IsOpen, commit-IsClosed, linked-keys, length-update_last, push_summary-room,
}

-- The summaries are those of the keys that were used, in their order, while the loop runs.
pub record Valid (limit : ℕ) (r : RequestAttempts) (ss : List AttemptSummary) : Type 0 where
  pub budget : InBudget limit r
  pub small : limit ≤ 2
  pub keys : map fingerprint_of ss ≡ r.used
  pub chain : IsOpen ss

-- The last attempt is committed, with this key.
abbrev pub IsCommittedTo : String → List AttemptSummary → Type 0
IsCommittedTo fingerprint [] = ⊥
IsCommittedTo fingerprint (s ∷ []) = (s.key_fingerprint ≡ fingerprint) × (s.committed ≡ true)
IsCommittedTo fingerprint (s ∷ t ∷ rest) = IsCommittedTo fingerprint (t ∷ rest)

-- An answer by the gateway itself only where no upstream error was read; the last error that was
-- read; or a response of another status, whose attempt is committed.
abbrev pub IsRight : FinalOutcome → Loop → Type 0
IsRight (unavailable_final d) s = s.last_response ≡ none
IsRight (last_response_final kept) s = kept ≡ s.last_response
IsRight (forward p sel start) s =
    ((p.status == 429) ≡ false)
    × (is_auth_unavailable p.status ≡ false)
    × (is_server_error p.status ≡ false)
    × IsCommittedTo sel.fingerprint s.summaries

pub record Ended (limit : ℕ) (outcome : FinalOutcome) (s : Loop) : Type 0 where
  pub budget : InBudget limit s.attempts
  pub keys : map fingerprint_of s.summaries ≡ s.attempts.used
  pub chain : IsClosed s.summaries
  pub right : IsRight outcome s

-- A turn that starts with `n` keys used.
abbrev pub Goes : ℕ → ℕ → TurnResult → Type 0
Goes limit n (continues s) = Valid limit s.attempts s.summaries × (length s.attempts.used ≡ suc n)
Goes limit n (breaks_with outcome s) = Ended limit outcome s
Goes limit n waits = Unit
Goes limit n panics = ⊥

Valid-observe :
    {limit : ℕ} {r : RequestAttempts} {ss : List AttemptSummary}
    (f : AttemptSummary → AttemptSummary)
    → Observes f
    → Valid limit r ss
    → Valid limit r (update_last f ss)
Valid-observe {ss = ss} f o v = record {
  budget = v.budget;
  small = v.small;
  keys = update_last-keys f ss o.key ∙ v.keys;
  chain = update_last-IsOpen f ss o v.chain;
}

-- There is room for the attempt of a key that has just been given.
pub added-eq :
    (limit : ℕ) (r : RequestAttempts) (ss : List AttemptSummary) (new : AttemptSummary)
    → InBudget limit r
    → limit ≤ 2
    → map fingerprint_of ss ++ new.key_fingerprint ∷ [] ≡ r.used
    → let linked = update_last (link_previous new.key_fingerprint) ss in
      push_summary linked new ≡ linked ++ new ∷ []
added-eq limit r ss new budget small keys =
    let link = link_previous new.key_fingerprint in
    let used = ap length keys in
    let more = length-append (map fingerprint_of ss) (new.key_fingerprint ∷ []) in
    push_summary-room (update_last link ss) new (
      omega (
        arith,
        used,
        more,
        length-map fingerprint_of ss,
        budget.within,
        length-update_last link ss,
      ))

-- The attempt that is added then.
pub Valid-add :
    (limit : ℕ) (r : RequestAttempts) (ss : List AttemptSummary) (new : AttemptSummary)
    → InBudget limit r
    → limit ≤ 2
    → map fingerprint_of ss ++ new.key_fingerprint ∷ [] ≡ r.used
    → IsOpen ss
    → IsPrecommit new
    → new.failover_target ≡ none
    → Valid limit r (push_summary (update_last (link_previous new.key_fingerprint) ss) new)
Valid-add limit r ss new budget small keys chain pre no_target =
    subst (Valid limit r) (sym (added-eq limit r ss new budget small keys)) (record {
      budget = budget;
      small = small;
      keys = linked-keys ss new chain ∙ keys;
      chain = linked-IsOpen ss new pre no_target chain;
    })

consumed-Observes : (c : ConsumedResponse) → Observes (observe_consumed_error c)
unfolding observe_consumed_error
consumed-Observes c = record {
  key = λ s. refl;
  precommit = λ s. refl;
  committed = λ s. refl;
  target = λ s. refl;
}

failure-Observes : (f : PrefetchFailure) → Observes (observe_failure f)
unfolding observe_failure
failure-Observes f = record {
  key = λ s. refl;
  precommit = λ s. refl;
  committed = λ s. refl;
  target = λ s. refl;
}

after_error-Goes :
    {limit n : ℕ} (s : Loop) (now : ℕ) (sel : Selection) (unread : Failure)
    (failure_of : ConsumedResponse → Failure) (r : Result ConsumedResponse (Unit {0}))
    → Valid limit s.attempts s.summaries
    → length s.attempts.used ≡ suc n
    → Goes limit n (continues (after_error s now sel unread failure_of r))
after_error-Goes s now sel unread failure_of (err e) v more = (v, more)
after_error-Goes s now sel unread failure_of (ok c) v more =
    (Valid-observe (observe_consumed_error c) (consumed-Observes c) v, more)

report_prefetch-Goes :
    {limit n : ℕ} (s : Loop) (now : ℕ) (sel : Selection) (model : String)
    (reason : AttemptTerminalReason)
    → Valid limit s.attempts s.summaries
    → length s.attempts.used ≡ suc n
    → Goes limit n (continues (report_prefetch s now sel model reason))
report_prefetch-Goes s now sel model completed v more = (v, more)
report_prefetch-Goes s now sel model response_header_timeout v more = (v, more)
report_prefetch-Goes s now sel model network_error v more = (v, more)
report_prefetch-Goes s now sel model retryable_response v more = (v, more)
report_prefetch-Goes s now sel model forwarded v more = (v, more)
report_prefetch-Goes s now sel model upstream_error v more = (v, more)
report_prefetch-Goes s now sel model client_cancel v more = (v, more)
report_prefetch-Goes s now sel model no_first_event v more = (v, more)
report_prefetch-Goes s now sel model event_idle_timeout v more = (v, more)
report_prefetch-Goes s now sel model end_before_first_event v more = (v, more)

pub commit-IsCommittedTo :
    (prepared : PreparedResponse) (ss : List AttemptSummary) (new : AttemptSummary)
    → IsCommittedTo new.key_fingerprint (update_last (commit prepared) (ss ++ new ∷ []))
unfolding update_last commit
commit-IsCommittedTo prepared [] new = (refl, refl)
commit-IsCommittedTo prepared (s ∷ []) new = (refl, refl)
commit-IsCommittedTo prepared (s ∷ t ∷ []) new = (refl, refl)
commit-IsCommittedTo prepared (s ∷ t ∷ u ∷ rest) new =
    commit-IsCommittedTo prepared (t ∷ u ∷ rest) new

-- The status is none that is tried again.
abbrev IsFinal : ℕ → Type 0
IsFinal status =
    ((status == 429) ≡ false)
    × (is_auth_unavailable status ≡ false)
    × (is_server_error status ≡ false)

after_prepare-Goes :
    {limit n : ℕ} (s : Loop) (t : Turn) (sel : Selection) (model : String)
    (r : Result PreparedResponse PrefetchFailure)
    → Valid limit s.attempts s.summaries
    → length s.attempts.used ≡ suc n
    → Ensures (λ p. IsFinal p.status) r
    → ((p : PreparedResponse) → IsCommittedTo sel.fingerprint (update_last (commit p) s.summaries))
    → Goes limit n (after_prepare s t sel model r)
after_prepare-Goes s t sel model (err f) v more final commits =
    report_prefetch-Goes (observe s (observe_failure f)) t.report_now sel model f.reason
      (Valid-observe (observe_failure f) (failure-Observes f) v) more
after_prepare-Goes s t sel model (ok p) v more final commits = record {
  budget = v.budget;
  keys = update_last-keys (commit p) s.summaries (λ x. unfold commit in refl) ∙ v.keys;
  chain = commit-IsClosed p s.summaries v.chain;
  right = (final.0, final.1, final.2, commits p);
}

module _ {J V : Type 0} (ops : NumberOps J) (json : JsonOps V) (utf8 : Utf8)
    (ctx : RequestContext) where
  prepared_from-status :
      (resp : Response) (timeouts : EventTimeouts) (P : ℕ → Type 0)
      (r : Result (Prefetch × ℕ × Stream) PrefetchFailure)
      → P resp.status
      → Ensures (λ p. P p.status) (prepared_from ops utf8 resp timeouts r)
  prepared_from-status resp timeouts P (err f) h = tt
  prepared_from-status resp timeouts P (ok x) h = h

  prepare_response-status :
      (resp : Response) (timeouts : EventTimeouts) (cap now attempt_start : ℕ) (P : ℕ → Type 0)
      → P resp.status
      → Ensures (λ p. P p.status) (prepare_response ops utf8 resp timeouts cap now attempt_start)
  unfolding prepare_response
  prepare_response-status resp timeouts cap now attempt_start P h =
      elim (Bool-cases resp.is_streaming) [
        | inl streams ↦ rw streams (prepared_from-status resp timeouts P _ h)
        | inr plain ↦ rw plain h
      ]

  pub after_response-Goes :
      {limit n : ℕ} (s : Loop) (t : Turn) (sel : Selection) (resp : Response)
      → Valid limit s.attempts s.summaries
      → length s.attempts.used ≡ suc n
      → ((p : PreparedResponse)
          → IsCommittedTo sel.fingerprint (update_last (commit p) s.summaries))
      → Goes limit n (after_response ops json utf8 ctx s t sel resp)
  unfolding after_response
  after_response-Goes s t sel resp v more commits = elim (Bool-cases (resp.status == 429)) [
    | inl limited ↦ rw limited (after_error-Goes s t.report_now sel _ _ _ v more)
    | inr other ↦ elim (Bool-cases (is_auth_unavailable resp.status)) [
      | inl refused ↦ rw (other, refused) (after_error-Goes s t.report_now sel _ _ _ v more)
      | inr allowed ↦ elim (Bool-cases (is_server_error resp.status)) [
        | inl broken ↦
            rw (other, allowed, broken) (after_error-Goes s t.report_now sel _ _ _ v more)
        | inr fine ↦
            rw (other, allowed, fine)
              (after_prepare-Goes s t sel ctx.model _ v more
                (prepare_response-status resp _ _ _ _ IsFinal (other, allowed, fine)) commits)
      ]
    ]
  ]
