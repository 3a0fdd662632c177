-- ===== src/Gateway/Tests/Streams.antt =====
-- The theorems on the streams of src/gateway.rs, at small bodies.
use orihsus.Prelude.{
  ℕ, ◌+◌, ◌≤◌, ◌<◌, ◌≡◌, ◌⊎◌, ◌++◌, refl, arith, String, true, false, Option, none, some, List, [],
  ◌∷◌, length, str_eq, if◌then◌else◌, Ensures,
}
use orihsus.Gateway.RateLimit.{codes}
use orihsus.Gateway.Usage.{NumberOps, extract_usage}
use orihsus.Gateway.Usage.Counts.{concat}
use orihsus.Gateway.Sse.{Utf8, new_sse, at_delimiter, ends_with}
use orihsus.Gateway.Sse.Events.{events_after, consume_all}
use orihsus.Gateway.Sse.Chunks.{push_all, push_all-events}
use orihsus.Config.Types.{EventTimeouts}
use orihsus.Gateway.Upstream.{
  Stream, ends, chunk, Response, error_classify_cap, sse_event_cap, oversized,
  consume_classify_body, prepare_response,
}
use orihsus.Gateway.Upstream.Reads.{
  bytes_of, ending_of, body_of, whole_in_time, consume_classify_body_lem, Holds,
  prepare_response-Holds,
}

-- A document with a usage whose cached tokens exceed the input.
pub data Part : Type 0 where
  document usage_part absent : Part
  number : ℕ → Part

abbrev part_of : Part → String → Part
part_of document name = if str_eq name "usage" then usage_part else absent
part_of usage_part name =
    if str_eq name "prompt_tokens"
    then number 10
    else if str_eq name "completion_tokens"
    then number 5
    else if str_eq name "cache_read_input_tokens"
    then number 30
    else absent
part_of _ name = absent

abbrev number_of : Part → Option ℕ
number_of (number n) = some n
number_of _ = none

abbrev pub small_numbers : NumberOps Part
small_numbers = record { read = λ body. some document; field = part_of; as_u64 = number_of }

-- The texts below are ASCII.
abbrev pub ascii : Utf8
ascii = record { decode = λ bytes. bytes; encode = λ text. text }

usage_clamped :
    extract_usage small_numbers []
    ≡ some (record {
      input_tokens = 10;
      cached_tokens = 10;
      uncached_tokens = 0;
      cache_write_tokens = none;
      output_tokens = 5;
      reasoning_tokens = none;
    })
unfolding extract_usage
usage_clamped = refl

-- An event cut in its delimiter, and one that is longer than the cap.
abbrev cut : List (List ℕ)
cut =
    (codes "data: {}" ++ 13 ∷ 10 ∷ 13 ∷ [])
    ∷ (10 ∷ codes "data:" ++ 10 ∷ [])
    ∷ (10 ∷ codes "data: 0123456789abcdef" ++ 10 ∷ 10 ∷ [])
    ∷ []

push_all-events_example :
    let (p, events) = push_all small_numbers ascii (new_sse 12) cut in
    let seen = consume_all small_numbers ascii 12 (events_after [] (concat cut)) (none, 0) in
    (p.usage ≡ seen.0) × (p.event_count ≡ seen.1) × (events ≡ seen.1) × (length p.event_buf ≤ 12)
push_all-events_example = push_all-events small_numbers ascii 12 cut

cut_events :
    events_after [] (concat cut)
    ≡ (codes "data: {}" ++ 13 ∷ 10 ∷ 13 ∷ [])
      ∷ (codes "data:" ++ 10 ∷ [])
      ∷ (codes "data: 0123456789abcdef" ++ 10 ∷ [])
      ∷ []
unfolding events_after at_delimiter ends_with
cut_events = refl

abbrev error_body : Stream
error_body = chunk 20 (codes "{") (chunk 30 (codes "}") (ends 40))

abbrev pub limited : Response
limited = record { status = 429; retry_after = none; is_streaming = false; body = error_body }

consume_classify_body_lem_example :
    let body = body_of (consume_classify_body limited 15 100 10 0) in
    (length (bytes_of limited.body) ≤ error_classify_cap
      → body ≡ whole_in_time (15 + 100) (bytes_of limited.body) (ending_of limited.body))
    × (error_classify_cap < length (bytes_of limited.body)
        → (body ≡ none) ⊎ (body ≡ some oversized))
consume_classify_body_lem_example = consume_classify_body_lem limited 15 100 10 0

abbrev pub event_stream : Response
event_stream = record {
  status = 200;
  retry_after = none;
  is_streaming = true;
  body =
      chunk 20 (codes "data: {}" ++ 10 ∷ []) (chunk 30 (10 ∷ []) (chunk 40 (codes "x") (ends 50)));
}

abbrev pub timeouts : EventTimeouts
timeouts = record { first_event_timeout = 100; inter_event_timeout = 100 }

prepare_response-Holds_example :
    Ensures
      (λ p. Holds sse_event_cap event_stream.body p.prefetched p.upstream)
      (prepare_response small_numbers ascii event_stream timeouts sse_event_cap 15 10)
prepare_response-Holds_example =
    prepare_response-Holds small_numbers ascii event_stream timeouts sse_event_cap 15 10
      (omega arith)
