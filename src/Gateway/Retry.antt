-- ===== src/Gateway/Retry.antt =====
-- The loop of `proxy_request` in src/gateway.rs: one attempt after another until an outcome. The pool
-- is shared, so a turn carries what other tasks do to it meanwhile and what the clock reads.
pub mod Chain
pub mod Steps
pub mod Turns
pub mod Errors
pub mod Reads
pub mod Runs
use orihsus.Prelude.{
  ℕ, ◌+◌, ◌-◌, String, Bool, true, false, not, ◌&&◌, ◌||◌, Option, none, some, List, [], ◌∷◌, ◌++◌,
  Result, ok, err, length, ltb, leb, ◌==◌, if◌then◌else◌,
}
use orihsus.Pool.State.{KeyPool}
use orihsus.Pool.Report.{
  Failure, usage_limited, rate_limited_for, unavailable_for, server, network, report_failure,
  report_liveness_failure,
}
use orihsus.Pool.Attempts.{
  Selection, RequestAttempts, AttemptResult, selected, unavailable, exhausted, Attempt,
  next_immediate,
}
use orihsus.Pool.Wait.{Round, Progress, done, pending, next}
use orihsus.Audit.Summary.{
  AttemptTerminalReason, response_header_timeout, network_error, retryable_response, forwarded,
  no_first_event, end_before_first_event, AttemptSummary, push_summary, update_last,
}
use orihsus.Gateway.RateLimit.{RateLimitKind, usage_limit, generic, JsonOps}
use orihsus.Gateway.Usage.{NumberOps}
use orihsus.Gateway.Sse.{Utf8}
use orihsus.Config.Types.{EventTimeouts}
use orihsus.Gateway.Upstream.{
  Response, ConsumedResponse, classify_error_body, consume_classify_body, PreparedResponse,
  PrefetchFailure, prepare_response, sse_event_cap,
}

unfoldable pub new_attempt_summary : ℕ → String → Option ℕ → AttemptTerminalReason → AttemptSummary
new_attempt_summary attempt_number key_fingerprint response_header_latency terminal_reason =
    record {
      attempt_number = attempt_number;
      key_fingerprint = key_fingerprint;
      response_header_latency = response_header_latency;
      first_byte_latency = none;
      first_event_latency = none;
      upstream_bytes = 0;
      upstream_chunks = 0;
      upstream_events = 0;
      last_activity_offset = none;
      precommit = true;
      committed = false;
      terminal_reason = terminal_reason;
      failover_target = none;
    }

abbrev pub is_auth_unavailable : ℕ → Bool
is_auth_unavailable status = status == 401 || status == 403

-- `StatusCode::is_server_error`.
abbrev pub is_server_error : ℕ → Bool
is_server_error status = leb 500 status && ltb status 600

-- How sending a request ends: no headers in time, no response at all, or a response.
pub data Sent : Type 0 where
  header_timeout send_failed : Sent
  replied : Response → Sent

-- What the environment brings to one turn: other tasks on the pool before a key is asked for and
-- while the request is out, the clock at each step, and the upstream's answer.
pub record Turn : Type 0 where
  pub before : KeyPool → KeyPool
  pub select_now : ℕ
  pub rounds : List Round
  pub attempt_start : ℕ
  pub sent : Sent
  pub replied_now : ℕ
  pub during : KeyPool → KeyPool
  pub report_now : ℕ

pub record Loop : Type 0 where
  pub pool : KeyPool
  pub attempts : RequestAttempts
  pub summaries : List AttemptSummary
  pub last_response : Option (ConsumedResponse × String)

pub data FinalOutcome : Type 0 where
  unavailable_final : ℕ → FinalOutcome
  last_response_final : Option (ConsumedResponse × String) → FinalOutcome
  forward : PreparedResponse → Selection → ℕ → FinalOutcome

-- A turn goes on with `continue`, or ends the loop; or its wait for a key is not over, or it panics.
pub data TurnResult : Type 0 where
  continues : Loop → TurnResult
  breaks_with : FinalOutcome → Loop → TurnResult
  waits panics : TurnResult

pub record RequestContext : Type 0 where
  pub model : String
  pub request_start : ℕ
  pub upstream_error_body : ℕ
  pub event_timeouts : EventTimeouts

-- The next summary's number, `u8::try_from(…).expect(…)`.
abbrev pub to_u8 : ℕ → Option ℕ
to_u8 n = if ltb n 256 then some n else none

-- `if previous.precommit && previous.failover_target.is_none()`.
abbrev pub set_target : String → AttemptSummary → Option String → AttemptSummary
set_target fingerprint s (some target) = s
set_target fingerprint s none =
    if s.precommit then record s { failover_target = some fingerprint } else s

abbrev pub link_previous : String → AttemptSummary → AttemptSummary
link_previous fingerprint s = set_target fingerprint s s.failover_target

unfoldable pub observe_consumed_error : ConsumedResponse → AttemptSummary → AttemptSummary
observe_consumed_error c s = record s {
  first_byte_latency = c.seen.first_byte_latency;
  upstream_bytes = c.seen.upstream_bytes;
  upstream_chunks = c.seen.upstream_chunks;
  last_activity_offset = c.seen.last_activity_offset;
}

unfoldable pub observe_failure : PrefetchFailure → AttemptSummary → AttemptSummary
observe_failure f s = record s {
  first_byte_latency = f.first_byte_latency;
  upstream_bytes = f.upstream_bytes;
  upstream_chunks = f.upstream_chunks;
  last_activity_offset = f.last_activity_offset;
  terminal_reason = f.reason;
}

unfoldable pub commit : PreparedResponse → AttemptSummary → AttemptSummary
commit p s = record s {
  first_byte_latency = p.first_byte_latency;
  first_event_latency = p.first_event_latency;
  precommit = false;
  committed = true;
  terminal_reason = forwarded;
}

abbrev pub add_attempt : Loop → AttemptSummary → Loop
add_attempt s summary = record s { summaries = push_summary s.summaries summary }

abbrev pub observe : Loop → (AttemptSummary → AttemptSummary) → Loop
observe s f = record s { summaries = update_last f s.summaries }

abbrev pub report : Loop → ℕ → Selection → Failure → Loop
report s now sel failure = record s { pool = report_failure s.pool now sel failure }

-- What the pool is told of a failure before the first event.
abbrev pub report_prefetch : Loop → ℕ → Selection → String → AttemptTerminalReason → Loop
report_prefetch s now sel model network_error = report s now sel network
report_prefetch s now sel model no_first_event = record s {
  pool = report_liveness_failure s.pool now sel model;
}
report_prefetch s now sel model end_before_first_event = record s {
  pool = report_liveness_failure s.pool now sel model;
}
report_prefetch s now sel model _ = s

-- An error status: its body is read, the key reported, and the response kept if the body was read.
abbrev pub after_error :
    Loop
    → ℕ
    → Selection
    → Failure
    → (ConsumedResponse → Failure)
    → Result ConsumedResponse (Unit {0})
    → Loop
after_error s now sel unread failure_of (err e) = report s now sel unread
after_error s now sel unread failure_of (ok c) =
    record (report (observe s (observe_consumed_error c)) now sel (failure_of c)) {
      last_response = some (c, sel.fingerprint);
    }

abbrev pub limit_failure : Option ℕ → RateLimitKind → Failure
limit_failure retry_after (usage_limit dimension cooldown) = usage_limited dimension cooldown
limit_failure retry_after generic = rate_limited_for retry_after

abbrev pub after_prepare :
    Loop → Turn → Selection → String → Result PreparedResponse PrefetchFailure → TurnResult
after_prepare s t sel model (err f) =
    continues (report_prefetch (observe s (observe_failure f)) t.report_now sel model f.reason)
after_prepare s t sel model (ok p) =
    breaks_with (forward p sel t.attempt_start) (observe s (commit p))

-- After an upstream response, only a key that is available now is tried.
abbrev pub next_attempt :
    KeyPool → RequestAttempts → Turn → Option (ConsumedResponse × String) → Progress
next_attempt pool attempts t (some kept) = done (next_immediate pool attempts t.select_now)
next_attempt pool attempts t none = next t.rounds pool attempts

module _ {J V : Type 0} (ops : NumberOps J) (json : JsonOps V) (utf8 : Utf8)
    (ctx : RequestContext) where
  abbrev pub consume : Turn → Response → Result ConsumedResponse (Unit {0})
  consume t resp =
      consume_classify_body resp t.replied_now ctx.upstream_error_body t.attempt_start
        ctx.request_start

  -- The branches on the status.
  unfoldable pub after_response : Loop → Turn → Selection → Response → TurnResult
  after_response s t sel resp =
      if resp.status == 429
      then continues (
          after_error s t.report_now sel (rate_limited_for resp.retry_after)
            (λ c. limit_failure resp.retry_after (classify_error_body json c.body))
            (consume t resp))
      else if is_auth_unavailable resp.status
      then continues (
          after_error s t.report_now sel (unavailable_for resp.retry_after)
            (λ c. unavailable_for resp.retry_after) (consume t resp))
      else if is_server_error resp.status
      then continues (after_error s t.report_now sel server (λ c. server) (consume t resp))
      else after_prepare s t sel ctx.model (
          prepare_response ops utf8 resp ctx.event_timeouts sse_event_cap t.replied_now
            t.attempt_start)

  abbrev pub after_send : Loop → Turn → Selection → ℕ → Sent → TurnResult
  after_send s t sel number header_timeout = continues (
      report
        (add_attempt s (new_attempt_summary number sel.fingerprint none response_header_timeout))
        t.report_now sel network)
  after_send s t sel number send_failed = continues (
      report
        (add_attempt s (
          new_attempt_summary number sel.fingerprint (some (t.replied_now - t.attempt_start))
            network_error))
        t.report_now sel network)
  after_send s t sel number (replied resp) =
      after_response
        (add_attempt s (
          new_attempt_summary number sel.fingerprint (some (t.replied_now - t.attempt_start))
            retryable_response))
        t sel resp

  abbrev pub numbered : Loop → Turn → Selection → Option ℕ → TurnResult
  numbered s t sel none = panics
  numbered s t sel (some number) =
      after_send (record s { pool = t.during s.pool }) t sel number t.sent

  abbrev pub use_key : Loop → Turn → Selection → TurnResult
  use_key s t sel =
      numbered (observe s (link_previous sel.fingerprint)) t sel (to_u8 (length s.summaries + 1))

  abbrev pub with_attempt : Loop → Turn → Attempt → TurnResult
  with_attempt s t a =
      let s' = record s { pool = a.pool; attempts = a.attempts } in
      elim (a.result) [
        | selected sel ↦ use_key s' t sel
        | unavailable retry_after ↦ breaks_with (unavailable_final retry_after) s'
        | exhausted ↦ breaks_with (last_response_final s.last_response) s'
      ]

  abbrev pub with_progress : Loop → Turn → Progress → TurnResult
  with_progress s t (pending pool) = waits
  with_progress s t (done a) = with_attempt s t a

  unfoldable pub take_turn : Loop → Turn → TurnResult
  unfolding after_response new_attempt_summary
  take_turn s t = with_progress s t (next_attempt (t.before s.pool) s.attempts t s.last_response)

  unfoldable pub run_loop : Loop → List Turn → TurnResult
  unfolding take_turn
  run_loop s [] = continues s
  run_loop s (t ∷ ts) = elim (take_turn s t) [
    | continues s' ↦ run_loop s' ts
    | breaks_with outcome s' ↦ breaks_with outcome s'
    | waits ↦ waits
    | panics ↦ panics
  ]

abbrev pub start_loop : KeyPool → RequestAttempts → Loop
start_loop pool attempts = record {
  pool = pool;
  attempts = attempts;
  summaries = [];
  last_response = none;
}
