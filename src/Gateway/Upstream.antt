-- ===== src/Gateway/Upstream.antt =====
-- The reading of an upstream body in src/gateway.rs before anything of it reaches the client:
-- `consume_error_response`, `consume_classify_body`, `classify_error_body` and `prepare_response`.
pub mod Reads
use orihsus.Prelude.{
  ℕ, ◌+◌, ◌-◌, ◌*◌, ◌^◌, min, Bool, true, false, Option, none, some, List, [], ◌∷◌, ◌++◌, Result,
  ok, err, length, leb, ltb, if◌then◌else◌,
}
use orihsus.Config.Types.{EventTimeouts}
use orihsus.Audit.Summary.{
  AttemptTerminalReason, network_error, no_first_event, end_before_first_event,
}
use orihsus.Gateway.RateLimit.{RateLimitKind, generic, JsonOps, classify_429}
use orihsus.Gateway.Usage.{NumberOps}
use orihsus.Gateway.Sse.{Utf8, SseUsageParser, new_sse, push}

-- A body as it arrives, each item at an instant: chunks, and then its end, a failure of the
-- connection, or nothing more.
pub data Stream : Type 0 where
  ends breaks : ℕ → Stream
  silent : Stream
  chunk : ℕ → List ℕ → Stream → Stream

-- An upstream response. Whether it is an event stream is read off its `Content-Type`, and
-- `retry_after` off its `Retry-After`.
pub record Response : Type 0 where
  pub status : ℕ
  pub retry_after : Option ℕ
  pub is_streaming : Bool
  pub body : Stream

abbrev pub error_classify_cap : ℕ
error_classify_cap = 64 * 1024

abbrev pub sse_event_cap : ℕ
sse_event_cap = 256 * 1024

abbrev pub u64_max : ℕ
u64_max = 2 ^ 64 - 1

-- `get_or_insert`.
abbrev pub or_first : Option ℕ → ℕ → Option ℕ
or_first none n = some n
or_first (some first) n = some first

-- What is counted of the body while it is read.
pub record Seen : Type 0 where
  pub first_byte_latency : Option ℕ
  pub upstream_bytes : ℕ
  pub upstream_chunks : ℕ
  pub last_activity_offset : Option ℕ

abbrev pub nothing_seen : Seen
nothing_seen = record {
  first_byte_latency = none;
  upstream_bytes = 0;
  upstream_chunks = 0;
  last_activity_offset = none;
}

pub data ErrorBody : Type 0 where
  buffered : List ℕ → ErrorBody
  oversized : ErrorBody

pub record ConsumedResponse : Type 0 where
  pub status : ℕ
  pub body : ErrorBody
  pub seen : Seen

abbrev pub see : ℕ → ℕ → ℕ → List ℕ → Seen → Seen
see attempt_start request_start at bytes seen = record {
  first_byte_latency = or_first seen.first_byte_latency (at - attempt_start);
  upstream_bytes = min (seen.upstream_bytes + length bytes) u64_max;
  upstream_chunks = min (seen.upstream_chunks + 1) u64_max;
  last_activity_offset = some (at - request_start);
}

-- The loop of `consume_error_response`: when it returns and what, or nothing if it never does.
unfoldable pub consume_loop :
    ℕ → ℕ → List ℕ → Seen → Stream → Option (ℕ × Result (ErrorBody × Seen) (Unit {0}))
consume_loop attempt_start request_start prefix seen (ends at) =
    some (at, ok (buffered prefix, seen))
consume_loop attempt_start request_start prefix seen (breaks at) = some (at, err tt)
consume_loop attempt_start request_start prefix seen silent = none
consume_loop attempt_start request_start prefix seen (chunk at bytes rest) =
    let after = see attempt_start request_start at bytes seen in
    let later = consume_loop attempt_start request_start (prefix ++ bytes) after rest in
    if leb (length bytes) (error_classify_cap - length prefix)
    then later
    else some (at, ok (oversized, after))

abbrev consumed_as : ℕ → Result (ErrorBody × Seen) (Unit {0}) → Result ConsumedResponse (Unit {0})
consumed_as status (ok (body, seen)) = ok (record { status = status; body = body; seen = seen })
consumed_as status (err e) = err e

abbrev pub in_time :
    ℕ → ℕ → Option (ℕ × Result (ErrorBody × Seen) (Unit {0})) → Result ConsumedResponse (Unit {0})
in_time status deadline none = err tt
in_time status deadline (some (at, result)) =
    if leb at deadline then consumed_as status result else err tt

-- The reading starts at `now`.
unfoldable pub consume_classify_body : Response → ℕ → ℕ → ℕ → ℕ → Result ConsumedResponse (Unit {0})
unfolding consume_loop
consume_classify_body resp now timeout attempt_start request_start =
    in_time resp.status (now + timeout)
      (consume_loop attempt_start request_start [] nothing_seen resp.body)

unfoldable pub classify_error_body : {J : Type 0} → JsonOps J → ErrorBody → RateLimitKind
classify_error_body ops (buffered bytes) = classify_429 ops bytes false
classify_error_body ops oversized = generic

pub record PreparedResponse : Type 0 where
  pub status : ℕ
  pub streaming : Bool
  pub upstream : Stream
  pub prefetched : List (List ℕ)
  pub first_byte_latency : Option ℕ
  pub first_event_latency : Option ℕ
  pub inter_event_timeout : ℕ

pub record PrefetchFailure : Type 0 where
  pub reason : AttemptTerminalReason
  pub first_byte_latency : Option ℕ
  pub upstream_bytes : ℕ
  pub upstream_chunks : ℕ
  pub last_activity_offset : Option ℕ

-- What `prepare_response` holds while it reads.
pub record Prefetch : Type 0 where
  pub detector : SseUsageParser
  pub prefetched : List (List ℕ)
  pub total : ℕ
  pub chunks : ℕ
  pub first_byte_latency : Option ℕ

abbrev pub failure_of : Prefetch → AttemptTerminalReason → PrefetchFailure
failure_of f reason = record {
  reason = reason;
  first_byte_latency = f.first_byte_latency;
  upstream_bytes = f.total;
  upstream_chunks = f.chunks;
  last_activity_offset = f.first_byte_latency;
}

abbrev reason_by : ℕ → ℕ → AttemptTerminalReason → AttemptTerminalReason
reason_by deadline at reason = if leb at deadline then reason else no_first_event

module _ {J : Type 0} (ops : NumberOps J) (utf8 : Utf8) where
  abbrev pub take_chunk : Prefetch → ℕ → ℕ → List ℕ → Prefetch × ℕ
  take_chunk f attempt_start at bytes =
      let (detector, events) = push ops utf8 f.detector bytes in
      (
        record {
          detector = detector;
          prefetched = f.prefetched ++ bytes ∷ [];
          total = min (f.total + length bytes) u64_max;
          chunks = min (f.chunks + 1) u64_max;
          first_byte_latency = or_first f.first_byte_latency (at - attempt_start);
        },
        events,
      )

  -- The loop under its timeout: what was read up to the first event, when, and what is left.
  unfoldable pub prefetch_loop :
      ℕ → ℕ → ℕ → Prefetch → Stream → Result (Prefetch × ℕ × Stream) PrefetchFailure
  prefetch_loop cap deadline attempt_start f (ends at) =
      err (failure_of f (reason_by deadline at end_before_first_event))
  prefetch_loop cap deadline attempt_start f (breaks at) =
      err (failure_of f (reason_by deadline at network_error))
  prefetch_loop cap deadline attempt_start f silent = err (failure_of f no_first_event)
  prefetch_loop cap deadline attempt_start f (chunk at bytes rest) =
      let (after, events) = take_chunk f attempt_start at bytes in
      let later = prefetch_loop cap deadline attempt_start after rest in
      if ltb deadline at
      then err (failure_of f no_first_event)
      else if ltb cap after.total
      then err (failure_of after end_before_first_event)
      else if ltb 0 events
      then ok (after, at - attempt_start, rest)
      else later

  abbrev pub prepared_from :
      Response
      → EventTimeouts
      → Result (Prefetch × ℕ × Stream) PrefetchFailure
      → Result PreparedResponse PrefetchFailure
  prepared_from resp timeouts (err failure) = err failure
  prepared_from resp timeouts (ok (f, first_event, rest)) = ok (record {
    status = resp.status;
    streaming = true;
    upstream = rest;
    prefetched = f.prefetched;
    first_byte_latency = f.first_byte_latency;
    first_event_latency = some first_event;
    inter_event_timeout = timeouts.inter_event_timeout;
  })

  abbrev plain_response : Response → EventTimeouts → PreparedResponse
  plain_response resp timeouts = record {
    status = resp.status;
    streaming = false;
    upstream = resp.body;
    prefetched = [];
    first_byte_latency = none;
    first_event_latency = none;
    inter_event_timeout = timeouts.inter_event_timeout;
  }

  abbrev pub no_prefetch : ℕ → Prefetch
  no_prefetch cap = record {
    detector = new_sse cap;
    prefetched = [];
    total = 0;
    chunks = 0;
    first_byte_latency = none;
  }

  -- The reading starts at `now`.
  unfoldable pub prepare_response :
      Response → EventTimeouts → ℕ → ℕ → ℕ → Result PreparedResponse PrefetchFailure
  unfolding prefetch_loop
  prepare_response resp timeouts cap now attempt_start =
      if resp.is_streaming
      then prepared_from resp timeouts (
          prefetch_loop cap (now + timeouts.first_event_timeout) attempt_start (no_prefetch cap)
            resp.body)
      else ok (plain_response resp timeouts)
