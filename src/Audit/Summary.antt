-- ===== src/Audit/Summary.antt =====
-- `AttemptSummary` and `AttemptSummaries` of src/audit.rs. A duration is in nanoseconds.
use orihsus.Prelude.{ℕ, String, Bool, Option, List, [], ◌∷◌, ◌++◌, length, ltb, if◌then◌else◌}

pub data AttemptTerminalReason : Type 0 where
  completed response_header_timeout network_error retryable_response : AttemptTerminalReason
  forwarded upstream_error client_cancel no_first_event : AttemptTerminalReason
  event_idle_timeout end_before_first_event : AttemptTerminalReason

pub record AttemptSummary : Type 0 where
  pub attempt_number : ℕ
  pub key_fingerprint : String
  pub response_header_latency : Option ℕ
  pub first_byte_latency : Option ℕ
  pub first_event_latency : Option ℕ
  pub upstream_bytes : ℕ
  pub upstream_chunks : ℕ
  pub upstream_events : ℕ
  pub last_activity_offset : Option ℕ
  pub precommit : Bool
  pub committed : Bool
  pub terminal_reason : AttemptTerminalReason
  pub failover_target : Option String

abbrev pub max_audit_attempts : ℕ
max_audit_attempts = 2

-- `AttemptSummaries::push`.
unfoldable pub push_summary : List AttemptSummary → AttemptSummary → List AttemptSummary
push_summary attempts summary =
    if ltb (length attempts) max_audit_attempts then attempts ++ summary ∷ [] else attempts

-- `last_mut`, and what is done to the summary.
unfoldable pub update_last :
    (AttemptSummary → AttemptSummary) → List AttemptSummary → List AttemptSummary
update_last f [] = []
update_last f (s ∷ []) = f s ∷ []
update_last f (s ∷ t ∷ rest) = s ∷ update_last f (t ∷ rest)
