-- ===== src/Gateway/Tests/Relays.antt =====
-- The theorems on the streaming of src/gateway.rs, at an event stream of three chunks.
use orihsus.Prelude.{◌++◌, refl, true, false, none, some, [], ◌∷◌, is_whitespace}
use orihsus.Pool.Attempts.{Selection}
use orihsus.Pool.Tests.{two_keys}
use orihsus.Gateway.RateLimit.{codes, strip_prefix, drop_while}
use orihsus.Gateway.Usage.{extract_usage}
use orihsus.Gateway.Sse.{
  push, push_bytes, push_byte, slide, at_delimiter, ends_with, consume_event, split_inclusive,
  without_end, trim_end, data_of, join_lines,
}
use orihsus.Gateway.Upstream.{
  ends, chunk, PreparedResponse, sse_event_cap, prepare_response, prefetch_loop,
}
use orihsus.Gateway.Upstream.Reads.{bytes_of, ending_of}
use orihsus.Gateway.Pump.{
  PumpPlan, Client, Pump, PumpOutcome, done, sse, feed, send_prefetched, pump_loop, pump_upstream,
  finish_stream,
}
use orihsus.Gateway.Pump.Relay.{Relayed, relay-Relayed}
use orihsus.Gateway.Tests.Streams.{small_numbers, ascii, event_stream, timeouts}

abbrev prepared : PreparedResponse
prepared = record {
  status = 200;
  streaming = true;
  upstream = chunk 40 (codes "x") (ends 50);
  prefetched = (codes "data: {}" ++ 10 ∷ []) ∷ (10 ∷ []) ∷ [];
  first_byte_latency = some 10;
  first_event_latency = some 20;
  inter_event_timeout = 100;
}

abbrev plan : PumpPlan
plan = record { idle = some 100; attempt_start = 10; request_start = 0; streaming = true }

abbrev client : Client
client n = record { offered_at = 31; is_taken = true; done_at = 32 }

abbrev used : Selection
used = record { fingerprint = "bb"; key = record { as_str = "key-b" }; id = 7 }

abbrev ended : Pump × PumpOutcome
ended = (
  record {
    parser = sse (record {
      event_buf = codes "x";
      event_cap = sse_event_cap;
      tail = codes "x";
      discarding = false;
      usage = some (record {
        input_tokens = 10;
        cached_tokens = 10;
        uncached_tokens = 0;
        cache_write_tokens = none;
        output_tokens = 5;
        reasoning_tokens = none;
      });
      event_count = 1;
    });
    metrics = record {
      first_byte_latency = some 10;
      first_event_latency = some 20;
      upstream_bytes = 11;
      upstream_chunks = 3;
      upstream_events = 1;
      last_activity_offset = some 40;
    };
    delivered = prepared.prefetched ++ codes "x" ∷ [];
    clock = 32;
  },
  done,
)

relay-Relayed_example :
    Relayed small_numbers ascii
      (bytes_of event_stream.body)
      (ending_of event_stream.body)
      true
      (finish_stream small_numbers ascii two_keys 60 used "m" [] ended)
unfolding feed push push_bytes push_byte slide at_delimiter ends_with consume_event split_inclusive
    without_end trim_end data_of join_lines send_prefetched pump_loop pump_upstream extract_usage
    strip_prefix drop_while is_whitespace prepare_response prefetch_loop
relay-Relayed_example =
    relay-Relayed small_numbers ascii event_stream timeouts 15 10 prepared plan client 31 ended
      two_keys 60 used "m" [] refl refl
