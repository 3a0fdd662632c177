-- ===== src/Gateway/Pump.antt =====
-- The streaming of an accepted response to the client in src/gateway.rs: `pump_upstream` and the task
-- of `stream_response` around it.
pub mod Delivers
pub mod Relay
use orihsus.Prelude.{
  ℕ, suc, ◌+◌, ◌-◌, ◌*◌, min, String, Bool, true, false, Option, none, some, List, [], ◌∷◌, ◌++◌,
  length, leb, ltb, if◌then◌else◌,
}
use orihsus.Pool.State.{KeyPool}
use orihsus.Pool.Report.{network, report_success, report_failure, report_liveness_failure}
use orihsus.Pool.Attempts.{Selection}
use orihsus.Audit.Summary.{
  AttemptTerminalReason, AttemptSummary, update_last, completed, upstream_error, client_cancel,
  event_idle_timeout,
}
use orihsus.Gateway.Usage.{
  NumberOps, RequestUsage, JsonUsageParser, new_json, push_json, usage_json,
}
use orihsus.Gateway.Sse.{Utf8, SseUsageParser, new_sse, push}
use orihsus.Gateway.Upstream.{
  Stream, ends, breaks, silent, chunk, PreparedResponse, u64_max, or_first, sse_event_cap,
}

abbrev pub json_usage_cap : ℕ
json_usage_cap = 64 * 1024

pub data StreamUsageParser : Type 0 where
  sse : SseUsageParser → StreamUsageParser
  json : JsonUsageParser → StreamUsageParser

pub data PumpOutcome : Type 0 where
  done cut cancelled idle_timeout : PumpOutcome

pub record PumpMetrics : Type 0 where
  pub first_byte_latency : Option ℕ
  pub first_event_latency : Option ℕ
  pub upstream_bytes : ℕ
  pub upstream_chunks : ℕ
  pub upstream_events : ℕ
  pub last_activity_offset : Option ℕ

abbrev pub no_metrics : PumpMetrics
no_metrics = record {
  first_byte_latency = none;
  first_event_latency = none;
  upstream_bytes = 0;
  upstream_chunks = 0;
  upstream_events = 0;
  last_activity_offset = none;
}

pub record PumpPlan : Type 0 where
  pub idle : Option ℕ
  pub attempt_start : ℕ
  pub request_start : ℕ
  pub streaming : Bool

-- How the client takes a chunk, `send_with_timeout`: when it is offered, whether it is taken within
-- the budget, and when the pump goes on.
pub record Send : Type 0 where
  pub offered_at : ℕ
  pub is_taken : Bool
  pub done_at : ℕ

-- `delivered` is what the client has taken, and `clock` when the last chunk was.
pub record Pump : Type 0 where
  pub parser : StreamUsageParser
  pub metrics : PumpMetrics
  pub delivered : List (List ℕ)
  pub clock : ℕ

-- What the client does with the chunk that is offered after so many others.
abbrev pub Client : Type 0
Client = ℕ → Send

abbrev push_sse_part : SseUsageParser × ℕ → StreamUsageParser × ℕ
push_sse_part (p, events) = (sse p, events)

-- What both loops count of a chunk.
abbrev counted : PumpMetrics → List ℕ → ℕ → ℕ → PumpMetrics
counted m bytes offset events = record m {
  upstream_bytes = min (m.upstream_bytes + length bytes) u64_max;
  upstream_chunks = min (m.upstream_chunks + 1) u64_max;
  upstream_events = min (m.upstream_events + events) u64_max;
  last_activity_offset = some offset;
}

abbrev pub deliver : Pump → List ℕ → Send → Pump
deliver p bytes send = record p { delivered = p.delivered ++ bytes ∷ []; clock = send.done_at }

abbrev first_event : PumpMetrics → ℕ → ℕ → PumpMetrics
first_event m at_latency events =
    if ltb 0 events
    then record m { first_event_latency = or_first m.first_event_latency at_latency }
    else m

-- The instant of the timeout of the wait for the next chunk, and the outcome at it.
abbrev pub limit_of : PumpPlan → Pump → Option ℕ → Option (ℕ × PumpOutcome)
limit_of plan p (some deadline) = some (deadline, idle_timeout)
limit_of plan p none = elim (plan.idle) [ none ↦ none | some idle ↦ some (p.clock + idle, cut) ]

abbrev pub expires : Option (ℕ × PumpOutcome) → ℕ → Option PumpOutcome
expires none at = none
expires (some (deadline, outcome)) at = if ltb deadline at then some outcome else none

abbrev pub next_deadline : PumpPlan → ℕ → ℕ → Option ℕ → Option ℕ
next_deadline plan at events deadline =
    if ltb 0 events
    then elim (plan.idle) [ none ↦ none | some idle ↦ some (at + idle) ]
    else deadline

abbrev pub stops : Pump → Option PumpOutcome → PumpOutcome → Option (Pump × PumpOutcome)
stops p none outcome = some (p, outcome)
stops p (some expired) outcome = some (p, expired)

abbrev pub stalls : Pump → Option (ℕ × PumpOutcome) → Option (Pump × PumpOutcome)
stalls p none = none
stalls p (some (deadline, outcome)) = some (p, outcome)

abbrev first_deadline : PumpPlan → ℕ → Option ℕ
first_deadline plan now =
    if plan.streaming
    then elim (plan.idle) [ none ↦ none | some idle ↦ some (now + idle) ]
    else none

abbrev start_metrics : PreparedResponse → PumpMetrics
start_metrics prepared = record no_metrics {
  first_byte_latency = prepared.first_byte_latency;
  first_event_latency = prepared.first_event_latency;
}

abbrev pub start_pump : PreparedResponse → StreamUsageParser → ℕ → Pump
start_pump prepared parser now = record {
  parser = parser;
  metrics = start_metrics prepared;
  delivered = [];
  clock = now;
}

-- The parser that `finalize_response` chooses.
abbrev pub parser_for : Bool → StreamUsageParser
parser_for true = sse (new_sse sse_event_cap)
parser_for false = json (new_json json_usage_cap)

abbrev pub reason_of : PumpOutcome → AttemptTerminalReason
reason_of done = completed
reason_of cut = upstream_error
reason_of cancelled = client_cancel
reason_of idle_timeout = event_idle_timeout

unfoldable pub observe_pump : PumpMetrics → PumpOutcome → AttemptSummary → AttemptSummary
observe_pump m outcome s = record s {
  first_byte_latency = m.first_byte_latency;
  first_event_latency = m.first_event_latency;
  upstream_bytes = m.upstream_bytes;
  upstream_chunks = m.upstream_chunks;
  upstream_events = m.upstream_events;
  last_activity_offset = m.last_activity_offset;
  terminal_reason = reason_of outcome;
}

-- What the pool is told at the end.
unfoldable pub feedback : KeyPool → ℕ → Selection → String → PumpOutcome → KeyPool
feedback pool now sel model done = report_success pool sel
feedback pool now sel model cut = report_failure pool now sel network
feedback pool now sel model cancelled = pool
feedback pool now sel model idle_timeout = report_liveness_failure pool now sel model

-- The record of a finished stream: the pool, the attempts and the usage for the audit, the outcome,
-- and what the client has taken.
pub record Finished : Type 0 where
  pub pool : KeyPool
  pub summaries : List AttemptSummary
  pub usage : Option RequestUsage
  pub outcome : PumpOutcome
  pub delivered : List (List ℕ)

-- `PumpResult::cancelled`, when the client's body is dropped first.
abbrev pub gone : Pump → Pump × PumpOutcome
gone p = (record p { metrics = no_metrics }, cancelled)

module _ {J : Type 0} (ops : NumberOps J) (utf8 : Utf8) where
  unfoldable pub feed : StreamUsageParser → List ℕ → StreamUsageParser × ℕ
  feed (sse p) bytes = push_sse_part (push ops utf8 p bytes)
  feed (json p) bytes = (json (push_json p bytes), 0)

  unfoldable pub usage_of_parser : StreamUsageParser → Option RequestUsage
  usage_of_parser (sse p) = p.usage
  usage_of_parser (json p) = usage_json ops p

  abbrev pub take_prefetched : PumpPlan → Pump → List ℕ → Send → Pump
  take_prefetched plan p bytes send =
      let (parser, events) = feed p.parser bytes in
      record p {
        parser = parser;
        metrics = counted p.metrics bytes (send.offered_at - plan.request_start) events;
      }

  -- The chunks that were read ahead; an outcome if the client is gone.
  unfoldable pub send_prefetched :
      PumpPlan → Client → Pump → List (List ℕ) → Pump × Option PumpOutcome
  send_prefetched plan client p [] = (p, none)
  send_prefetched plan client p (bytes ∷ rest) =
      let send = client (length p.delivered) in
      let taken = take_prefetched plan p bytes send in
      let later = send_prefetched plan client (deliver taken bytes send) rest in
      if send.is_taken then later else (taken, some cancelled)

  abbrev pub take_chunk : PumpPlan → Pump → ℕ → List ℕ → Pump × ℕ
  take_chunk plan p at bytes =
      let (parser, events) = feed p.parser bytes in
      let m = record p.metrics {
        first_byte_latency = or_first p.metrics.first_byte_latency (at - plan.attempt_start);
      } in
      let counts = counted m bytes (at - plan.request_start) events in
      (
        record p { parser = parser; metrics = first_event counts (at - plan.attempt_start) events },
        events,
      )

  -- The loop; nothing if it waits for ever.
  unfoldable pub pump_loop :
      PumpPlan → Client → Pump → Option ℕ → Stream → Option (Pump × PumpOutcome)
  pump_loop plan client p deadline (ends at) = stops p (expires (limit_of plan p deadline) at) done
  pump_loop plan client p deadline (breaks at) = stops p (expires (limit_of plan p deadline) at) cut
  pump_loop plan client p deadline silent = stalls p (limit_of plan p deadline)
  pump_loop plan client p deadline (chunk at bytes rest) =
      let (taken, events) = take_chunk plan p at bytes in
      let send = client (length p.delivered) in
      let later =
        pump_loop plan client (deliver taken bytes send) (next_deadline plan at events deadline)
          rest in
      elim (expires (limit_of plan p deadline) at) [
        | some outcome ↦ some (p, outcome)
        | none ↦ if send.is_taken then later else some (taken, cancelled)
      ]

  abbrev pub pump_rest :
      PumpPlan → Client → Stream → Pump × Option PumpOutcome → Option (Pump × PumpOutcome)
  pump_rest plan client upstream (p, some outcome) = some (p, outcome)
  pump_rest plan client upstream (p, none) =
      pump_loop plan client p (first_deadline plan p.clock) upstream

  -- It starts at `now`.
  unfoldable pub pump_upstream :
      PumpPlan → Client → PreparedResponse → StreamUsageParser → ℕ → Option (Pump × PumpOutcome)
  unfolding send_prefetched pump_loop
  pump_upstream plan client prepared parser now =
      pump_rest plan client prepared.upstream
        (send_prefetched plan client (start_pump prepared parser now) prepared.prefetched)

  abbrev usage_if_done : PumpOutcome → StreamUsageParser → Option RequestUsage
  usage_if_done done parser = usage_of_parser parser
  usage_if_done _ parser = none

  unfoldable pub finish_stream :
      KeyPool → ℕ → Selection → String → List AttemptSummary → Pump × PumpOutcome → Finished
  unfolding observe_pump feedback
  finish_stream pool now sel model summaries (p, outcome) = record {
    pool = feedback pool now sel model outcome;
    summaries = update_last (observe_pump p.metrics outcome) summaries;
    usage = usage_if_done outcome p.parser;
    outcome = outcome;
    delivered = p.delivered;
  }
