-- ===== src/Pool/Entry.antt =====
-- `KeyEntry`, `CoolingReason` and `key_suffix` of src/pool.rs, and the searches of the entry list.
pub mod Search
use mathlib.Core.List.{reverse}
use orihsus.Prelude.{
  ℕ, String, Bool, Option, none, some, List, [], ◌∷◌, ltb, str_eq, is_some_and, if◌then◌else◌, find,
  take, chars, of_chars,
}
use orihsus.Config.Secret.{Secret}

pub data CoolingReason : Type 0 where
  proactive_usage usage_limit rate_limited unavailable circuit_breaker : CoolingReason

unfoldable pub as_str : CoolingReason → String
as_str proactive_usage = "proactive_usage"
as_str usage_limit = "usage_limit"
as_str rate_limited = "rate_limited"
as_str unavailable = "unavailable"
as_str circuit_breaker = "circuit_breaker"

pub record KeyEntry : Type 0 where
  pub key : Secret
  pub fingerprint : String
  pub status_id : String
  pub cooling_until : Option ℕ
  pub cooling_reason : Option CoolingReason
  pub cooling_by : Option ℕ
  pub consecutive_failures : ℕ
  pub backoff_step : ℕ
  pub last_failure_by : Option ℕ
  pub half_open : Bool
  pub liveness_cooling : List (String × ℕ)

-- The last six characters.
unfoldable pub key_suffix : String → String
key_suffix secret = of_chars (reverse (take 6 (reverse (chars secret))))

-- `cooling_until.is_some_and(|d| d > now)`.
abbrev pub is_cooling : ℕ → KeyEntry → Bool
is_cooling now e = is_some_and e.cooling_until (λ d. ltb now d)

-- `entries.iter().find(|e| e.fingerprint == fingerprint)`.
abbrev pub find_entry : String → List KeyEntry → Option KeyEntry
find_entry fp = find (λ e. str_eq e.fingerprint fp)

-- What writing through the entry that `iter_mut().find(…)` returns does to the list.
unfoldable pub update_entry : String → (KeyEntry → KeyEntry) → List KeyEntry → List KeyEntry
update_entry fp f [] = []
update_entry fp f (e ∷ es) = if str_eq e.fingerprint fp then f e ∷ es else e ∷ update_entry fp f es
