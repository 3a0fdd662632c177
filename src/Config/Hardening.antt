-- ===== src/Config/Hardening.antt =====
-- The server section of src/config.rs.
pub mod Bounds
use mathlib.Core.Option.{get_or}
use orihsus.Prelude.{
  ℕ, ◌*◌, ◌/◌, String, Bool, ◌||◌, Option, none, some, List, [], ◌∷◌, insert, len, is_blank, ltb,
  ◌==◌, Result, ok, err, ◌>>=◌, ◌>>◌, reject,
}
use orihsus.Time.{from_secs, nanos_per_sec}
use orihsus.Config.Raw.{RawServer, RawEventTimeouts}
use orihsus.Config.Types.{Server, EventTimeouts, ConfigError, validation, validation_bound}
use orihsus.Config.Limits.{u32_max, max_model_bytes, seconds_or}

-- `Duration::as_secs`.
abbrev as_secs : ℕ → ℕ
as_secs d = d / nanos_per_sec

-- The loop over the timeouts of single models, with the two global ones and the map so far.
unfoldable pub model_timeouts_loop :
    ℕ
    → ℕ
    → List (String × EventTimeouts)
    → List (String × RawEventTimeouts)
    → Result (List (String × EventTimeouts)) ConfigError
model_timeouts_loop first inter timeouts [] = ok timeouts
model_timeouts_loop first inter timeouts ((model, policy) ∷ rest) = do
  reject (is_blank model || ltb max_model_bytes (len model))
      (validation "server.model_event_timeouts model names must be non-blank and at most 256 bytes")
  let model_first = from_secs (get_or policy.first_event_timeout_seconds (as_secs first))
  let model_inter = from_secs (get_or policy.inter_event_timeout_seconds (as_secs inter))
  reject (model_first == 0 || model_inter == 0)
      (validation "server.model_event_timeouts values must be greater than zero")
  model_timeouts_loop first inter
      (insert model
        (record { first_event_timeout = model_first; inter_event_timeout = model_inter }) timeouts)
      rest

abbrev no_server : RawServer
no_server = record {
  read_header_timeout_seconds = none;
  max_header_bytes = none;
  body_read_timeout_seconds = none;
  upstream_response_header_timeout_seconds = none;
  first_event_timeout_seconds = none;
  inter_event_timeout_seconds = none;
  model_event_timeouts = [];
  upstream_error_body_timeout_seconds = none;
  response_write_timeout_seconds = none;
  max_connections = none;
}

-- The timeouts and bounds of a request, in the order in which they are checked.
unfoldable pub load_request_bounds : RawServer → Result (ℕ × ℕ × ℕ × ℕ) ConfigError
load_request_bounds server = do
  let read_header_timeout = seconds_or server.read_header_timeout_seconds 5
  reject (read_header_timeout == 0)
      (validation "server.read_header_timeout_seconds must be greater than zero")
  let max_header_bytes = get_or server.max_header_bytes (32 * 1024)
  reject (ltb max_header_bytes 8192)
      (validation "server.max_header_bytes must be at least 8192 bytes (HTTP/1 minimum)")
  reject (ltb u32_max max_header_bytes)
      (validation "server.max_header_bytes must fit u32 (hyper's HTTP/2 header-list cap is u32)")
  let body_read_timeout = seconds_or server.body_read_timeout_seconds 30
  reject (body_read_timeout == 0)
      (validation "server.body_read_timeout_seconds must be greater than zero")
  let upstream_timeout = seconds_or server.upstream_response_header_timeout_seconds 60
  reject (upstream_timeout == 0)
      (validation "server.upstream_response_header_timeout_seconds must be greater than zero")
  ok (read_header_timeout, max_header_bytes, body_read_timeout, upstream_timeout)

-- The event timeouts: the global ones, and those of single models.
unfoldable pub load_event_timeouts :
    RawServer → Result (ℕ × ℕ × List (String × EventTimeouts)) ConfigError
load_event_timeouts server = do
  let first_event_timeout = seconds_or server.first_event_timeout_seconds 60
  reject (first_event_timeout == 0)
      (validation "server.first_event_timeout_seconds must be greater than zero")
  let inter_event_timeout = seconds_or server.inter_event_timeout_seconds 90
  reject (inter_event_timeout == 0)
      (validation "server.inter_event_timeout_seconds must be greater than zero")
  timeouts ←
      model_timeouts_loop first_event_timeout inter_event_timeout [] server.model_event_timeouts
  ok (first_event_timeout, inter_event_timeout, timeouts)

-- The bounds of a response and of the connections.
unfoldable pub load_response_bounds : RawServer → Result (ℕ × ℕ × ℕ) ConfigError
load_response_bounds server = do
  let error_body_timeout = seconds_or server.upstream_error_body_timeout_seconds 5
  reject (error_body_timeout == 0)
      (validation "server.upstream_error_body_timeout_seconds must be greater than zero")
  let response_write_timeout = seconds_or server.response_write_timeout_seconds 30
  reject (response_write_timeout == 0)
      (validation "server.response_write_timeout_seconds must be greater than zero")
  let max_connections = get_or server.max_connections 1024
  reject (max_connections == 0) (validation "server.max_connections must be at least 1")
  reject (ltb 65536 max_connections) (
      validation_bound "server.max_connections must be at most " 65536
        " (the systemd LimitNOFILE FD budget)")
  ok (error_body_timeout, response_write_timeout, max_connections)

unfoldable pub load_server : Option RawServer → Result Server ConfigError
load_server raw = do
  let server = get_or raw no_server
  (read_header_timeout, max_header_bytes, body_read_timeout, upstream_timeout) ←
      load_request_bounds server
  (first_event_timeout, inter_event_timeout, timeouts) ← load_event_timeouts server
  (error_body_timeout, response_write_timeout, max_connections) ← load_response_bounds server
  ok (record {
    read_header_timeout = read_header_timeout;
    max_header_bytes = max_header_bytes;
    body_read_timeout = body_read_timeout;
    upstream_response_header_timeout = upstream_timeout;
    first_event_timeout = first_event_timeout;
    inter_event_timeout = inter_event_timeout;
    model_event_timeouts = timeouts;
    upstream_error_body_timeout = error_body_timeout;
    response_write_timeout = response_write_timeout;
    max_connections = max_connections;
  })
