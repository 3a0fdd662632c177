-- ===== src/Gateway/Upstream/Reads.antt =====
-- What `consume_classify_body` and `prepare_response` of src/gateway.rs have read of a body.
use mathlib.Core.List.{append-nil, append_assoc}
use native.Mathlib.Decide.{dec_lt}
use orihsus.Prelude.{
  leb-true, leb-false, ℕ, ◌+◌, ◌-◌, min, ◌≤◌, ◌<◌, ◌≡◌, refl, sym, ap, ◌∙◌, ◌⊎◌, inl, inr, false,
  Option, none, some, List, [], ◌++◌, Result, ok, err, length, length-append, leb, ltb,
  if◌then◌else◌, Bool-cases, Ensures, arith,
}
use orihsus.Gateway.Usage.{NumberOps}
use orihsus.Gateway.Usage.Counts.{concat, concat-push}
use orihsus.Gateway.Sse.{Utf8}
use orihsus.Config.Types.{EventTimeouts}
use orihsus.Gateway.Upstream.{
  Stream, ends, breaks, silent, chunk, Response, error_classify_cap, u64_max, Seen, nothing_seen,
  see, ErrorBody, buffered, oversized, ConsumedResponse, consume_loop, in_time,
  consume_classify_body, PrefetchFailure, Prefetch, take_chunk, no_prefetch, prefetch_loop,
  prepared_from, prepare_response,
}

-- The bytes of a body, and how it ends.
abbrev pub bytes_of : Stream → List ℕ
bytes_of (ends at) = []
bytes_of (breaks at) = []
bytes_of silent = []
bytes_of (chunk at bytes rest) = bytes ++ bytes_of rest

pub data Ending : Type 0 where
  whole broken : ℕ → Ending
  never : Ending

abbrev pub ending_of : Stream → Ending
ending_of (ends at) = whole at
ending_of (breaks at) = broken at
ending_of silent = never
ending_of (chunk at bytes rest) = ending_of rest

abbrev pub body_of : Result ConsumedResponse (Unit {0}) → Option ErrorBody
body_of (ok consumed) = some consumed.body
body_of (err e) = none

-- The body that is classified: the whole one, if it comes in time.
abbrev pub whole_in_time : ℕ → List ℕ → Ending → Option ErrorBody
whole_in_time deadline bytes (whole at) = if leb at deadline then some (buffered bytes) else none
whole_in_time deadline bytes (broken at) = none
whole_in_time deadline bytes never = none

module _ (status deadline attempt_start request_start : ℕ) where
  abbrev read_body : List ℕ → Seen → Stream → Option ErrorBody
  read_body prefix seen s =
      body_of (in_time status deadline (consume_loop attempt_start request_start prefix seen s))

  read_body-fits :
      (s : Stream) (prefix : List ℕ) (seen : Seen)
      → length (prefix ++ bytes_of s) ≤ error_classify_cap
      → read_body prefix seen s ≡ whole_in_time deadline (prefix ++ bytes_of s) (ending_of s)
  unfolding consume_loop
  read_body-fits (ends at) prefix seen h = elim (Bool-cases (leb at deadline)) [
    | inl early ↦ rw (early, append-nil prefix) refl
    | inr late ↦ rw late refl
  ]
  read_body-fits (breaks at) prefix seen h = elim (Bool-cases (leb at deadline)) [
    | inl early ↦ rw early refl
    | inr late ↦ rw late refl
  ]
  read_body-fits silent prefix seen h = refl
  read_body-fits (chunk at bytes rest) prefix seen h =
      rw
        (
          leb-true (length bytes) (error_classify_cap - length prefix) room,
          ← append_assoc prefix bytes (bytes_of rest),
        )
        (read_body-fits rest (prefix ++ bytes) (see attempt_start request_start at bytes seen)
          (rw (append_assoc prefix bytes (bytes_of rest)) h))
    where
      room : length bytes ≤ error_classify_cap - length prefix
      room =
          let outer = length-append prefix (bytes ++ bytes_of rest) in
          let inner = length-append bytes (bytes_of rest) in omega (arith, outer, inner)

  read_body-overruns :
      (s : Stream) (prefix : List ℕ) (seen : Seen)
      → length prefix ≤ error_classify_cap
      → error_classify_cap < length (prefix ++ bytes_of s)
      → (read_body prefix seen s ≡ none) ⊎ (read_body prefix seen s ≡ some oversized)
  unfolding consume_loop
  read_body-overruns (ends at) prefix seen k h =
      absurd (omega (arith, ap length (append-nil prefix)))
  read_body-overruns (breaks at) prefix seen k h =
      absurd (omega (arith, ap length (append-nil prefix)))
  read_body-overruns silent prefix seen k h = inl refl
  read_body-overruns (chunk at bytes rest) prefix seen k h =
      let after = see attempt_start request_start at bytes seen in
      elim (dec_lt (error_classify_cap - length prefix) (length bytes)) [
        | yes over ↦
            rw (leb-false (length bytes) (error_classify_cap - length prefix) over)
              (elim (Bool-cases (leb at deadline)) [
                | inl early ↦ rw early (inr refl)
                | inr late ↦ rw late (inl refl)
              ])
        | no room ↦
            rw (leb-true (length bytes) (error_classify_cap - length prefix) (omega arith)) (
              read_body-overruns rest (prefix ++ bytes) after
                (omega (arith, length-append prefix bytes))
                (rw (append_assoc prefix bytes (bytes_of rest)) h))
      ]

-- What is classified of an error body that fits the cap is the whole of it if its end arrives before
-- the timeout, and nothing in any other case; a longer body is given up or classified as oversized,
-- never by a part of it.
pub consume_classify_body_lem :
    (resp : Response) (now timeout attempt_start request_start : ℕ)
    → let body = body_of (consume_classify_body resp now timeout attempt_start request_start) in
      (length (bytes_of resp.body) ≤ error_classify_cap
        → body ≡ whole_in_time (now + timeout) (bytes_of resp.body) (ending_of resp.body))
      × (error_classify_cap < length (bytes_of resp.body) → (body ≡ none) ⊎ (body ≡ some oversized))
unfolding consume_classify_body
consume_classify_body_lem resp now timeout attempt_start request_start = (
  read_body-fits resp.status (now + timeout) attempt_start request_start resp.body [] nothing_seen,
  read_body-overruns resp.status (now + timeout) attempt_start request_start resp.body []
      nothing_seen (omega arith),
)

-- Nothing of the body is lost, and no more than the cap is held.
pub record Holds (cap : ℕ) (body : Stream) (prefetched : List (List ℕ)) (rest : Stream)
    : Type 0 where
  pub bytes : bytes_of body ≡ concat prefetched ++ bytes_of rest
  pub ending : ending_of body ≡ ending_of rest
  pub bounded : length (concat prefetched) ≤ cap

module _ {J : Type 0} (ops : NumberOps J) (utf8 : Utf8) where
  -- One more chunk is held, if it does not pass the cap.
  take_chunk-Holds :
      (cap attempt_start at : ℕ) (body rest : Stream) (bytes : List ℕ) (f : Prefetch)
      → cap < u64_max
      → Holds cap body f.prefetched (chunk at bytes rest)
      → f.total ≡ length (concat f.prefetched)
      → let after = (take_chunk ops utf8 f attempt_start at bytes).0 in
        ltb cap after.total ≡ false
        → Holds cap body after.prefetched rest × (after.total ≡ length (concat after.prefetched))
  take_chunk-Holds cap attempt_start at body rest bytes f small holds sum fits =
      let more = concat-push f.prefetched bytes in
      let longer = ap length more ∙ length-append (concat f.prefetched) bytes in
      let total : min (f.total + length bytes) u64_max ≤ cap = ground arith in
      (
        record {
          bytes =
              holds.bytes
              ∙ sym (append_assoc (concat f.prefetched) bytes (bytes_of rest))
              ∙ ap (λ t. t ++ bytes_of rest) (sym more);
          ending = holds.ending;
          bounded = omega (arith, longer, sum, total);
        },
        omega (arith, longer, sum, total),
      )

  prefetch_loop-Holds :
      (s : Stream) (cap deadline attempt_start : ℕ) (body : Stream) (f : Prefetch)
      → cap < u64_max
      → Holds cap body f.prefetched s
      → f.total ≡ length (concat f.prefetched)
      → Ensures
          (λ r. Holds cap body r.0.prefetched r.2)
          (prefetch_loop ops utf8 cap deadline attempt_start f s)
  unfolding prefetch_loop
  prefetch_loop-Holds (ends at) cap deadline attempt_start body f small holds sum = tt
  prefetch_loop-Holds (breaks at) cap deadline attempt_start body f small holds sum = tt
  prefetch_loop-Holds silent cap deadline attempt_start body f small holds sum = tt
  prefetch_loop-Holds (chunk at bytes rest) cap deadline attempt_start body f small holds sum =
      let (after, events) = take_chunk ops utf8 f attempt_start at bytes in
      elim (Bool-cases (ltb deadline at)) [
        | inl late ↦ rw late tt
        | inr early ↦ elim (Bool-cases (ltb cap after.total)) [
          | inl over ↦ rw (early, over) tt
          | inr fits ↦
              let (held, counted) =
                take_chunk-Holds cap attempt_start at body rest bytes f small holds sum fits in
              elim (Bool-cases (ltb 0 events)) [
                | inl found ↦ rw (early, fits, found) held
                | inr none_yet ↦
                    rw (early, fits, none_yet)
                      (prefetch_loop-Holds rest cap deadline attempt_start body after small held
                        counted)
              ]
        ]
      ]

  prepared_from-Holds :
      (resp : Response) (timeouts : EventTimeouts) (cap : ℕ)
      (r : Result (Prefetch × ℕ × Stream) PrefetchFailure)
      → Ensures (λ x. Holds cap resp.body x.0.prefetched x.2) r
      → Ensures
          (λ p. Holds cap resp.body p.prefetched p.upstream)
          (prepared_from ops utf8 resp timeouts r)
  prepared_from-Holds resp timeouts cap (err failure) h = tt
  prepared_from-Holds resp timeouts cap (ok x) h = h

  -- A response that is committed to the client has lost nothing of its body: the chunks read ahead
  -- and the stream that is left make up the body that arrives, with its ending, and the chunks hold
  -- no more bytes than the cap, which is to lie below 2^64 - 1.
  pub prepare_response-Holds :
      (resp : Response) (timeouts : EventTimeouts) (cap now attempt_start : ℕ)
      → cap < u64_max
      → Ensures
          (λ p. Holds cap resp.body p.prefetched p.upstream)
          (prepare_response ops utf8 resp timeouts cap now attempt_start)
  unfolding prepare_response
  prepare_response-Holds resp timeouts cap now attempt_start small =
      elim (Bool-cases resp.is_streaming) [
        | inl streams ↦ rw streams (
            prepared_from-Holds resp timeouts cap _ (
              prefetch_loop-Holds resp.body cap (now + timeouts.first_event_timeout) attempt_start
                resp.body (no_prefetch ops utf8 cap) small at_start refl))
        | inr plain ↦ rw plain at_start
      ]
    where
      at_start : Holds cap resp.body [] resp.body
      at_start = record { bytes = refl; ending = refl; bounded = omega arith }
