-- ===== src/Gateway/Retry/Reads.antt =====
-- The loop of `proxy_request` in src/gateway.rs keeps the last upstream error that its turns bring.
use mathlib.Core.List.{append-nil, append_assoc}
use orihsus.Prelude.{
  ℕ, ◌≡◌, refl, sym, ap, ◌∙◌, inl, inr, String, Option, none, some, List, [], ◌∷◌, ◌++◌, ◌==◌,
  Bool-cases, Result, ok, err, length, ◌+◌,
}
use orihsus.Pool.Report.{Failure}
use orihsus.Pool.Attempts.{
  Selection, AttemptResult, selected, unavailable, exhausted, Attempt, next_immediate,
}
use orihsus.Pool.Wait.{Progress, done, pending}
use orihsus.Pool.Wait.Grows.{grown, Grows, ProgressGrows, next-Grows, next_immediate-Grows}
use orihsus.Audit.Summary.{
  AttemptTerminalReason, completed, response_header_timeout, network_error, retryable_response,
  forwarded, upstream_error, client_cancel, no_first_event, event_idle_timeout,
  end_before_first_event,
}
use orihsus.Gateway.RateLimit.{JsonOps}
use orihsus.Gateway.Usage.{NumberOps}
use orihsus.Gateway.Sse.{Utf8}
use orihsus.Gateway.Upstream.{Response, ConsumedResponse, PreparedResponse, PrefetchFailure}
use orihsus.Gateway.Retry.Errors.{ReadError, kept_of, or_keep, error_in, last_error}
use orihsus.Gateway.Retry.{
  Sent, header_timeout, send_failed, replied, Turn, Loop, unavailable_final, last_response_final,
  forward, TurnResult, continues, breaks_with, waits, panics, RequestContext, to_u8, link_previous,
  observe, report_prefetch, after_error, after_prepare, is_auth_unavailable, is_server_error,
  after_response, after_send, numbered, use_key, with_attempt, with_progress, next_attempt,
  take_turn, run_loop,
}

abbrev Kept : Loop → Loop → Option ReadError → Type 0
Kept s s' read = (s'.attempts ≡ s.attempts) × (s'.last_response ≡ or_keep read s.last_response)

after_error-Kept :
    (s : Loop) (now : ℕ) (sel : Selection) (unread : Failure)
    (failure_of : ConsumedResponse → Failure) (r : Result ConsumedResponse (Unit {0}))
    → Kept s (after_error s now sel unread failure_of r) (kept_of sel.fingerprint r)
after_error-Kept s now sel unread failure_of (err e) = (refl, refl)
after_error-Kept s now sel unread failure_of (ok c) = (refl, refl)

report_prefetch-Kept :
    (s : Loop) (now : ℕ) (sel : Selection) (model : String) (reason : AttemptTerminalReason)
    → Kept s (report_prefetch s now sel model reason) none
report_prefetch-Kept s now sel model completed = (refl, refl)
report_prefetch-Kept s now sel model response_header_timeout = (refl, refl)
report_prefetch-Kept s now sel model network_error = (refl, refl)
report_prefetch-Kept s now sel model retryable_response = (refl, refl)
report_prefetch-Kept s now sel model forwarded = (refl, refl)
report_prefetch-Kept s now sel model upstream_error = (refl, refl)
report_prefetch-Kept s now sel model client_cancel = (refl, refl)
report_prefetch-Kept s now sel model no_first_event = (refl, refl)
report_prefetch-Kept s now sel model event_idle_timeout = (refl, refl)
report_prefetch-Kept s now sel model end_before_first_event = (refl, refl)

-- What a turn with a key that has just been given makes of the loop; or what it is without one.
abbrev Sends : Loop → Option ReadError → TurnResult → Type 0
Sends s read (continues s') = Kept s s' read
Sends s read (breaks_with (forward p sel start) s') = Unit
Sends s read (breaks_with (unavailable_final d) s') = ⊥
Sends s read (breaks_with (last_response_final kept) s') = ⊥
Sends s read waits = Unit
Sends s read panics = Unit

after_prepare-Sends :
    (s : Loop) (t : Turn) (sel : Selection) (model : String)
    (r : Result PreparedResponse PrefetchFailure)
    → Sends s none (after_prepare s t sel model r)
after_prepare-Sends s t sel model (err f) = report_prefetch-Kept _ t.report_now sel model f.reason
after_prepare-Sends s t sel model (ok p) = tt

module _ (ctx : RequestContext) where
  -- The keys that a run gave behind those of its start, and that its end holds the last error read
  -- with them, where it ends without a response to forward.
  abbrev pub HeldBy : Loop → List Turn → Loop → Type 0
  HeldBy s ts s' =
      (fingerprints : List String) × (s'.attempts.used ≡ s.attempts.used ++ fingerprints)
      × (s'.last_response ≡ last_error ctx s.last_response ts fingerprints)

  abbrev pub RunReads : Loop → List Turn → TurnResult → Type 0
  RunReads s ts (breaks_with (forward p sel start) s') = Unit
  RunReads s ts (breaks_with (unavailable_final d) s') = HeldBy s ts s'
  RunReads s ts (breaks_with (last_response_final kept) s') = HeldBy s ts s'
  RunReads s ts _ = Unit

module _ {J V : Type 0} (ops : NumberOps J) (json : JsonOps V) (utf8 : Utf8)
    (ctx : RequestContext) where
  after_response-Sends :
      (s : Loop) (t : Turn) (sel : Selection) (resp : Response)
      → Sends s
          (error_in ctx t sel.fingerprint (replied resp))
          (after_response ops json utf8 ctx s t sel resp)
  unfolding after_response
  after_response-Sends s t sel resp = elim (Bool-cases (resp.status == 429)) [
    | inl limited ↦ rw limited (after_error-Kept s t.report_now sel _ _ _)
    | inr other ↦ elim (Bool-cases (is_auth_unavailable resp.status)) [
      | inl refused ↦ rw (other, refused) (after_error-Kept s t.report_now sel _ _ _)
      | inr allowed ↦ elim (Bool-cases (is_server_error resp.status)) [
        | inl broken ↦ rw (other, allowed, broken) (after_error-Kept s t.report_now sel _ _ _)
        | inr fine ↦ rw (other, allowed, fine) (after_prepare-Sends s t sel ctx.model _)
      ]
    ]
  ]

  after_send-Sends :
      (s : Loop) (t : Turn) (sel : Selection) (number : ℕ) (sent : Sent)
      → Sends s
          (error_in ctx t sel.fingerprint sent)
          (after_send ops json utf8 ctx s t sel number sent)
  after_send-Sends s t sel number header_timeout = (refl, refl)
  after_send-Sends s t sel number send_failed = (refl, refl)
  after_send-Sends s t sel number (replied resp) = after_response-Sends _ t sel resp

  use_key-Sends :
      (s : Loop) (t : Turn) (sel : Selection)
      → Sends s (error_in ctx t sel.fingerprint t.sent) (use_key ops json utf8 ctx s t sel)
  use_key-Sends s t sel = go (to_u8 (length s.summaries + 1))
    where
      go :
          (number : Option ℕ)
          → Sends s
              (error_in ctx t sel.fingerprint t.sent)
              (numbered ops json utf8 ctx (observe s (link_previous sel.fingerprint)) t sel number)
      go none = tt
      go (some number) = after_send-Sends _ t sel number t.sent

  -- What a turn makes of the loop: with a key, the key is used and the error that is read is kept;
  -- without one, nothing changes.
  abbrev TurnReads : Loop → Turn → TurnResult → Type 0
  TurnReads s t (continues s') =
      (fingerprint : String) × (s'.attempts.used ≡ s.attempts.used ++ fingerprint ∷ [])
      × (s'.last_response ≡ or_keep (error_in ctx t fingerprint t.sent) s.last_response)
  TurnReads s t (breaks_with (forward p sel start) s') = Unit
  TurnReads s t (breaks_with (unavailable_final d) s') =
      (s'.attempts.used ≡ s.attempts.used) × (s'.last_response ≡ s.last_response)
  TurnReads s t (breaks_with (last_response_final kept) s') =
      (s'.attempts.used ≡ s.attempts.used) × (s'.last_response ≡ s.last_response)
  TurnReads s t waits = Unit
  TurnReads s t panics = Unit

  sent-TurnReads :
      (s s' : Loop) (t : Turn) (fingerprint : String) (x : TurnResult)
      → s'.attempts.used ≡ s.attempts.used ++ fingerprint ∷ []
      → s'.last_response ≡ s.last_response
      → Sends s' (error_in ctx t fingerprint t.sent) x
      → TurnReads s t x
  sent-TurnReads s s' t fingerprint (continues after) used kept (attempts, read) = (
    fingerprint,
    ap (λ r. r.used) attempts ∙ used,
    read ∙ ap (or_keep (error_in ctx t fingerprint t.sent)) kept,
  )
  sent-TurnReads s s' t fingerprint (breaks_with (forward p sel start) after) used kept h = tt
  sent-TurnReads s s' t fingerprint (breaks_with (unavailable_final d) after) used kept h = absurd h
  sent-TurnReads s s' t fingerprint (breaks_with (last_response_final k) after) used kept h =
      absurd h
  sent-TurnReads s s' t fingerprint waits used kept h = tt
  sent-TurnReads s s' t fingerprint panics used kept h = tt

  with_attempt-TurnReads :
      (s : Loop) (t : Turn) (a : Attempt)
      → Grows s.attempts a
      → TurnReads s t (with_attempt ops json utf8 ctx s t a)
  with_attempt-TurnReads s t a grows = go a.result grows
    where
      s' : Loop
      s' = record s { pool = a.pool; attempts = a.attempts }

      go :
          (x : AttemptResult)
          → a.attempts ≡ grown s.attempts x
          → TurnReads s t (elim x [
            | selected sel ↦ use_key ops json utf8 ctx s' t sel
            | unavailable d ↦ breaks_with (unavailable_final d) s'
            | exhausted ↦ breaks_with (last_response_final s.last_response) s'
          ])
      go (selected sel) e =
          sent-TurnReads s s' t sel.fingerprint _ (ap (λ r. r.used) e) refl (use_key-Sends s' t sel)
      go (unavailable d) e = (ap (λ r. r.used) e, refl)
      go exhausted e = (ap (λ r. r.used) e, refl)

  progress-TurnReads :
      (s : Loop) (t : Turn) (x : Progress)
      → ProgressGrows s.attempts x
      → TurnReads s t (with_progress ops json utf8 ctx s t x)
  progress-TurnReads s t (pending pool) grows = tt
  progress-TurnReads s t (done a) grows = with_attempt-TurnReads s t a grows

  take_turn-TurnReads : (s : Loop) (t : Turn) → TurnReads s t (take_turn ops json utf8 ctx s t)
  unfolding take_turn
  take_turn-TurnReads s t = go s.last_response
    where
      go :
          (kept : Option ReadError)
          → TurnReads s t (
              with_progress ops json utf8 ctx s t
                (next_attempt (t.before s.pool) s.attempts t kept))
      go none = progress-TurnReads s t _ (next-Grows t.rounds (t.before s.pool) s.attempts)
      go (some error) =
          progress-TurnReads s t (done (next_immediate (t.before s.pool) s.attempts t.select_now))
            (next_immediate-Grows (t.before s.pool) s.attempts t.select_now).0

  HeldBy-first :
      (s m s' : Loop) (t : Turn) (ts : List Turn)
      → TurnReads s t (continues m)
      → HeldBy ctx m ts s'
      → HeldBy ctx s (t ∷ ts) s'
  unfolding last_error
  HeldBy-first s m s' t ts (fingerprint, used, read) (fingerprints, more, held) = (
    fingerprint ∷ fingerprints,
    more
        ∙ ap (λ us. us ++ fingerprints) used
        ∙ append_assoc s.attempts.used (fingerprint ∷ []) fingerprints,
    held ∙ ap (λ kept. last_error ctx kept ts fingerprints) read,
  )

  RunReads-first :
      (s m : Loop) (t : Turn) (ts : List Turn) (x : TurnResult)
      → TurnReads s t (continues m)
      → RunReads ctx m ts x
      → RunReads ctx s (t ∷ ts) x
  RunReads-first s m t ts (breaks_with (forward p sel start) s') first rest = tt
  RunReads-first s m t ts (breaks_with (unavailable_final d) s') first rest =
      HeldBy-first s m s' t ts first rest
  RunReads-first s m t ts (breaks_with (last_response_final kept) s') first rest =
      HeldBy-first s m s' t ts first rest
  RunReads-first s m t ts (continues s') first rest = tt
  RunReads-first s m t ts waits first rest = tt
  RunReads-first s m t ts panics first rest = tt

  unchanged-HeldBy :
      (s s' : Loop) (ts : List Turn)
      → s'.attempts.used ≡ s.attempts.used
      → s'.last_response ≡ s.last_response
      → HeldBy ctx s ts s'
  unfolding last_error
  unchanged-HeldBy s s' [] used kept = ([], used ∙ sym (append-nil s.attempts.used), kept)
  unchanged-HeldBy s s' (t ∷ ts) used kept = ([], used ∙ sym (append-nil s.attempts.used), kept)

  after_turn :
      (s : Loop) (t : Turn) (ts : List Turn) (x : TurnResult) (rest : Loop → TurnResult)
      → TurnReads s t x
      → ((m : Loop) → RunReads ctx m ts (rest m))
      → RunReads ctx s (t ∷ ts) (elim x [
        | continues m ↦ rest m
        | breaks_with outcome m ↦ breaks_with outcome m
        | waits ↦ waits
        | panics ↦ panics
      ])
  after_turn s t ts (continues m) rest h k = RunReads-first s m t ts (rest m) h (k m)
  after_turn s t ts (breaks_with (forward p sel start) m) rest h k = tt
  after_turn s t ts (breaks_with (unavailable_final d) m) rest h k =
      unchanged-HeldBy s m (t ∷ ts) h.0 h.1
  after_turn s t ts (breaks_with (last_response_final kept) m) rest h k =
      unchanged-HeldBy s m (t ∷ ts) h.0 h.1
  after_turn s t ts waits rest h k = tt
  after_turn s t ts panics rest h k = tt

  pub run_loop-RunReads :
      (s : Loop) (ts : List Turn) → RunReads ctx s ts (run_loop ops json utf8 ctx s ts)
  unfolding run_loop
  run_loop-RunReads s [] = tt
  run_loop-RunReads s (t ∷ ts) =
      after_turn s t ts (take_turn ops json utf8 ctx s t) (λ m. run_loop ops json utf8 ctx m ts)
        (take_turn-TurnReads s t) (λ m. run_loop-RunReads m ts)
