-- ===== src/Config/Compare.antt =====
-- The derived `PartialEq` of the parts of the configuration of src/config.rs that a reload must not
-- change.
pub mod Equal
use orihsus.Prelude.{ℕ, String, Bool, true, false, ◌&&◌, List, [], ◌∷◌, ◌==◌, str_eq}
use orihsus.Float.{F64, le_f64}
use orihsus.Config.Types.{
  Usage, Limits, KeyFailureHandling, Audit, EventTimeouts, Server, IpAddr, v4, v6, SocketAddr,
}

abbrev eq_list : List ℕ → List ℕ → Bool
eq_list [] [] = true
eq_list (x ∷ xs) (y ∷ ys) = x == y && eq_list xs ys
eq_list _ _ = false

abbrev eq_ip : IpAddr → IpAddr → Bool
eq_ip (v4 a b c d) (v4 a' b' c' d') = a == a' && b == b' && c == c' && d == d'
eq_ip (v6 gs) (v6 gs') = eq_list gs gs'
eq_ip _ _ = false

abbrev pub eq_listen : SocketAddr → SocketAddr → Bool
eq_listen a b = eq_ip a.ip b.ip && a.port == b.port

abbrev pub eq_limits : Limits → Limits → Bool
eq_limits a b =
    a.max_concurrency == b.max_concurrency
    && a.max_queue == b.max_queue
    && a.queue_wait_timeout == b.queue_wait_timeout
    && a.max_body_bytes == b.max_body_bytes
    && a.max_inflight_body_bytes == b.max_inflight_body_bytes

abbrev pub eq_key_failure_handling : KeyFailureHandling → KeyFailureHandling → Bool
eq_key_failure_handling a b =
    a.backoff_initial == b.backoff_initial
    && a.backoff_max == b.backoff_max
    && a.breaker_threshold == b.breaker_threshold
    && a.breaker_cooldown == b.breaker_cooldown
    && a.max_attempts == b.max_attempts

-- `==` of 64-bit floats: the zeros are equal, and no number is not equal to itself.
abbrev pub eq_f64 : F64 → F64 → Bool
eq_f64 a b = le_f64 a b && le_f64 b a

abbrev pub eq_usage : Usage → Usage → Bool
eq_usage a b =
    eq_f64 a.soft_threshold_percent b.soft_threshold_percent && a.poll_interval == b.poll_interval

abbrev pub eq_audit : Audit → Audit → Bool
eq_audit a b = str_eq a.path b.path && a.queue_capacity == b.queue_capacity

abbrev eq_timeouts : List (String × EventTimeouts) → List (String × EventTimeouts) → Bool
eq_timeouts [] [] = true
eq_timeouts ((m, s) ∷ xs) ((n, t) ∷ ys) =
    str_eq m n
    && s.first_event_timeout == t.first_event_timeout
    && s.inter_event_timeout == t.inter_event_timeout
    && eq_timeouts xs ys
eq_timeouts _ _ = false

abbrev pub eq_server : Server → Server → Bool
eq_server a b =
    a.read_header_timeout == b.read_header_timeout
    && a.max_header_bytes == b.max_header_bytes
    && a.body_read_timeout == b.body_read_timeout
    && a.upstream_response_header_timeout == b.upstream_response_header_timeout
    && a.first_event_timeout == b.first_event_timeout
    && a.inter_event_timeout == b.inter_event_timeout
    && eq_timeouts a.model_event_timeouts b.model_event_timeouts
    && a.upstream_error_body_timeout == b.upstream_error_body_timeout
    && a.response_write_timeout == b.response_write_timeout
    && a.max_connections == b.max_connections
