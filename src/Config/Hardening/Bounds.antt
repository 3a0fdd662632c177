-- ===== src/Config/Hardening/Bounds.antt =====
-- What the server section of src/config.rs satisfies once it is accepted.
use orihsus.Prelude.{
  ℕ, ◌<◌, ◌≤◌, ◌≡◌, String, ◌||◌, Option, List, [], ◌∷◌, ok, arith, All, insert, ◌==◌, ltb, len,
  is_blank, Ensures, inl, inr, Bool-cases, ◌/◌,
}
use mathlib.Core.Option.{get_or}
use orihsus.Time.{from_secs, nanos_per_sec}
use orihsus.Config.Types.{Server, EventTimeouts}
use orihsus.Config.Raw.{RawServer, RawEventTimeouts}
use orihsus.Config.Limits.{u32_max, max_model_bytes, seconds_or}
use orihsus.Config.Hardening.{
  model_timeouts_loop, no_server, load_request_bounds, load_event_timeouts, load_response_bounds,
  load_server,
}

-- The timeouts of a model are positive.
abbrev pub Positive : String × EventTimeouts → Type 0
Positive entry = (0 < entry.1.first_event_timeout) × (0 < entry.1.inter_event_timeout)

pub record ServerIsValid (s : Server) : Type 0 where
  pub read_header : 0 < s.read_header_timeout
  pub header_room : 8192 ≤ s.max_header_bytes
  pub header_fits : s.max_header_bytes ≤ u32_max
  pub body_read : 0 < s.body_read_timeout
  pub response_header : 0 < s.upstream_response_header_timeout
  pub first_event : 0 < s.first_event_timeout
  pub inter_event : 0 < s.inter_event_timeout
  pub model_events : All Positive s.model_event_timeouts
  pub error_body : 0 < s.upstream_error_body_timeout
  pub response_write : 0 < s.response_write_timeout
  pub some_connection : 0 < s.max_connections
  pub few_connections : s.max_connections ≤ 65536

insert-Positive :
    (k : String) (v : EventTimeouts) (m : List (String × EventTimeouts))
    → Positive (k, v)
    → All Positive m
    → All Positive (insert k v m)
unfolding insert
insert-Positive k v [] pos h = (pos, tt)
insert-Positive k v (kv ∷ m) pos h = ground (arith, insert-Positive k v m pos h.1)

model_timeouts_loop-Positive :
    (first inter : ℕ) (m : List (String × EventTimeouts)) (raw : List (String × RawEventTimeouts))
    → All Positive m
    → Ensures (All Positive) (model_timeouts_loop first inter m raw)
unfolding model_timeouts_loop
model_timeouts_loop-Positive first inter m [] h = h
model_timeouts_loop-Positive first inter m ((model, policy) ∷ rest) h =
    let model_first =
      from_secs (get_or policy.first_event_timeout_seconds (first / nanos_per_sec)) in
    let model_inter =
      from_secs (get_or policy.inter_event_timeout_seconds (inter / nanos_per_sec)) in
    let timeouts : EventTimeouts = record {
      first_event_timeout = model_first;
      inter_event_timeout = model_inter;
    } in
    elim (Bool-cases (is_blank model || ltb max_model_bytes (len model))) [
      | inl bad ↦ rw bad tt
      | inr named ↦ elim (Bool-cases (model_first == 0 || model_inter == 0)) [
        | inl stuck ↦ rw (named, stuck) tt
        | inr some_time ↦
            rw (named, some_time)
              (model_timeouts_loop-Positive first inter (insert model timeouts m) rest
                (insert-Positive model timeouts m (ground arith, ground arith) h))
      ]
    ]

request_bounds :
    (server : RawServer)
    → Ensures
        (λ t. (0 < t.0) × (8192 ≤ t.1) × (t.1 ≤ u32_max) × (0 < t.2) × (0 < t.3))
        (load_request_bounds server)
unfolding load_request_bounds
request_bounds server = ground arith

event_timeouts :
    (server : RawServer)
    → Ensures (λ t. (0 < t.0) × (0 < t.1) × All Positive t.2) (load_event_timeouts server)
unfolding load_event_timeouts
event_timeouts server = ground (
  arith,
  model_timeouts_loop-Positive (seconds_or server.first_event_timeout_seconds 60)
      (seconds_or server.inter_event_timeout_seconds 90) [] server.model_event_timeouts tt,
)

response_bounds :
    (server : RawServer)
    → Ensures (λ t. (0 < t.0) × (0 < t.1) × (0 < t.2) × (t.2 ≤ 65536)) (load_response_bounds server)
unfolding load_response_bounds
response_bounds server = ground arith

pub load_server-valid :
    (raw : Option RawServer) {s : Server} → load_server raw ≡ ok s → ServerIsValid s
unfolding load_server
load_server-valid raw loaded =
    let server = get_or raw no_server in
    ground (arith, request_bounds server, event_timeouts server, response_bounds server)
