-- ===== src/Config/Compare/Equal.antt =====
-- The comparison of the parts of the configuration of src/config.rs is equality.
use text.Mathlib.TextEquality.{eq_iff}
use orihsus.Prelude.{◌≡◌, refl, ap, ℕ, String, true, List, [], ◌∷◌, arith}
use orihsus.Config.Types.{
  Limits, KeyFailureHandling, Audit, EventTimeouts, Server, IpAddr, v4, v6, SocketAddr,
}
use orihsus.Config.Compare.{
  eq_list, eq_ip, eq_listen, eq_limits, eq_key_failure_handling, eq_audit, eq_timeouts, eq_server,
}

eq_list_lem : (xs ys : List ℕ) → eq_list xs ys ≡ true → xs ≡ ys
eq_list_lem [] [] same = refl
eq_list_lem [] (y ∷ ys) same = cc
eq_list_lem (x ∷ xs) [] same = cc
eq_list_lem (x ∷ xs) (y ∷ ys) same =
    let (p, q) : (x ≡ y) × (xs ≡ ys) = ground (arith, eq_list_lem xs ys) in λ i. p i ∷ q i

eq_ip_lem : (a b : IpAddr) → eq_ip a b ≡ true → a ≡ b
eq_ip_lem (v4 a b c d) (v4 a' b' c' d') same =
    let (p, q, r, s) : (a ≡ a') × (b ≡ b') × (c ≡ c') × (d ≡ d') = ground arith in
    λ i. v4 (p i) (q i) (r i) (s i)
eq_ip_lem (v6 gs) (v6 gs') same = ap v6 (eq_list_lem gs gs' same)
eq_ip_lem (v4 a b c d) (v6 gs) same = cc
eq_ip_lem (v6 gs) (v4 a b c d) same = cc

pub eq_listen_lem : (a b : SocketAddr) → eq_listen a b ≡ true → a ≡ b
eq_listen_lem a b same =
    let (p, q) : (a.ip ≡ b.ip) × (a.port ≡ b.port) = ground (arith, eq_ip_lem a.ip b.ip) in
    λ i. record { ip = p i; port = q i }

pub eq_limits_lem : (a b : Limits) → eq_limits a b ≡ true → a ≡ b
eq_limits_lem a b same =
    let (p, q, r, s, t) : (a.max_concurrency ≡ b.max_concurrency)
        × (a.max_queue ≡ b.max_queue)
        × (a.queue_wait_timeout ≡ b.queue_wait_timeout)
        × (a.max_body_bytes ≡ b.max_body_bytes)
        × (a.max_inflight_body_bytes ≡ b.max_inflight_body_bytes) =
      ground (arith) in
    λ i. record {
      max_concurrency = p i;
      max_queue = q i;
      queue_wait_timeout = r i;
      max_body_bytes = s i;
      max_inflight_body_bytes = t i;
    }

pub eq_key_failure_handling_lem :
    (a b : KeyFailureHandling) → eq_key_failure_handling a b ≡ true → a ≡ b
eq_key_failure_handling_lem a b same =
    let (p, q, r, s, t) : (a.backoff_initial ≡ b.backoff_initial)
        × (a.backoff_max ≡ b.backoff_max)
        × (a.breaker_threshold ≡ b.breaker_threshold)
        × (a.breaker_cooldown ≡ b.breaker_cooldown)
        × (a.max_attempts ≡ b.max_attempts) =
      ground (arith) in
    λ i. record {
      backoff_initial = p i;
      backoff_max = q i;
      breaker_threshold = r i;
      breaker_cooldown = s i;
      max_attempts = t i;
    }

pub eq_audit_lem : (a b : Audit) → eq_audit a b ≡ true → a ≡ b
eq_audit_lem a b same =
    let (p, q) : (a.path ≡ b.path) × (a.queue_capacity ≡ b.queue_capacity) =
      ground (arith, eq_iff a.path b.path) in
    λ i. record { path = p i; queue_capacity = q i }

eq_timeouts_lem : (xs ys : List (String × EventTimeouts)) → eq_timeouts xs ys ≡ true → xs ≡ ys
eq_timeouts_lem [] [] same = refl
eq_timeouts_lem [] (y ∷ ys) same = cc
eq_timeouts_lem (x ∷ xs) [] same = cc
eq_timeouts_lem ((m, s) ∷ xs) ((n, t) ∷ ys) same =
    let (p, q, r, rest) : (m ≡ n)
        × (s.first_event_timeout ≡ t.first_event_timeout)
        × (s.inter_event_timeout ≡ t.inter_event_timeout)
        × (xs ≡ ys) =
      ground (arith, eq_iff m n, eq_timeouts_lem xs ys) in
    λ i. (p i, record { first_event_timeout = q i; inter_event_timeout = r i }) ∷ rest i

pub eq_server_lem : (a b : Server) → eq_server a b ≡ true → a ≡ b
eq_server_lem a b same =
    let (p, q, r, s, t, u, v, w, x, y) : (a.read_header_timeout ≡ b.read_header_timeout)
        × (a.max_header_bytes ≡ b.max_header_bytes)
        × (a.body_read_timeout ≡ b.body_read_timeout)
        × (a.upstream_response_header_timeout ≡ b.upstream_response_header_timeout)
        × (a.first_event_timeout ≡ b.first_event_timeout)
        × (a.inter_event_timeout ≡ b.inter_event_timeout)
        × (a.model_event_timeouts ≡ b.model_event_timeouts)
        × (a.upstream_error_body_timeout ≡ b.upstream_error_body_timeout)
        × (a.response_write_timeout ≡ b.response_write_timeout)
        × (a.max_connections ≡ b.max_connections) =
      ground (arith, eq_timeouts_lem a.model_event_timeouts b.model_event_timeouts) in
    λ i. record {
      read_header_timeout = p i;
      max_header_bytes = q i;
      body_read_timeout = r i;
      upstream_response_header_timeout = s i;
      first_event_timeout = t i;
      inter_event_timeout = u i;
      model_event_timeouts = v i;
      upstream_error_body_timeout = w i;
      response_write_timeout = x i;
      max_connections = y i;
    }
