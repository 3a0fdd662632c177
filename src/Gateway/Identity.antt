-- ===== src/Gateway/Identity.antt =====
-- Who sends a request to src/gateway.rs: `check_proxy_auth` with what it calls, `request_id_for` and
-- `RequestAudit::from_headers`. The conversion of the text of a header to a text is a parameter.
pub mod Known
pub mod Ids
use Prim.Native.String
use orihsus.Prelude.{
  ℕ, zero, suc, ◌+◌, ◌/◌, ◌%◌, ◌^◌, ltb, ◌++◌, String, Bool, true, false, not, ◌&&◌, ◌||◌, Option,
  none, some, List, [], ◌∷◌, map, leb, ◌==◌, if◌then◌else◌, Result, ok, err, length, str_eq,
}
use orihsus.Audit.Fingerprint.{fingerprint}
use orihsus.Config.Secret.{Secret}
use orihsus.Config.Types.{GatewayKey}
use orihsus.Gateway.RateLimit.{codes, strip_prefix}
use orihsus.Gateway.Headers.{Header, UpstreamApi, is_named, is_messages, to_str, trim}

-- `HeaderMap::get` with `HeaderValue::to_str`: the text of the first value of the name.
unfoldable pub get_str : List Header → String → Option (List ℕ)
get_str [] name = none
get_str (h ∷ hs) name =
    let rest = get_str hs name in if is_named name h then to_str h.value else rest

pub record GatewayIdentity : Type 0 where
  pub name : String
  pub fallback_session_id : String

-- The status of a request that is not let in.
pub data AuthError : Type 0 where
  unauthorized : AuthError

abbrev or_identity : Option GatewayIdentity → Result GatewayIdentity AuthError
or_identity none = err unauthorized
or_identity (some identity) = ok identity

-- `is_ascii_alphanumeric`, or one of `-`, `_` and `.`.
abbrev pub is_id_byte : ℕ → Bool
is_id_byte b =
    (leb 48 b && leb b 57)
    || (leb 65 b && leb b 90)
    || (leb 97 b && leb b 122)
    || b == 45
    || b == 95
    || b == 46

unfoldable pub all_id_bytes : List ℕ → Bool
all_id_bytes [] = true
all_id_bytes (b ∷ bs) = is_id_byte b && all_id_bytes bs

abbrev pub is_valid_id : List ℕ → Bool
is_valid_id text = not (length text == 0) && leb (length text) 128 && all_id_bytes text

-- A digit of `{:x}`, and `{:016x}` of a 64-bit number, as the last `n` of its digits.
abbrev pub hex_code : ℕ → ℕ
hex_code d = if ltb d 10 then 48 + d else 87 + d

unfoldable pub hex_codes : ℕ → ℕ → List ℕ
hex_codes zero m = []
hex_codes (suc n) m = hex_codes n (m / 16) ++ hex_code (m % 16) ∷ []

-- At a counter and the nanoseconds since the epoch: the identifier and the next counter.
unfoldable pub generate_request_id : ℕ → ℕ → List ℕ × ℕ
unfolding hex_codes
generate_request_id counter now =
    (hex_codes 16 (now % 2 ^ 64) ++ hex_codes 16 counter, (counter + 1) % 2 ^ 64)

-- The header if it is valid, and otherwise an identifier of its own.
abbrev or_generated : Option (List ℕ) → ℕ → ℕ → List ℕ × ℕ
or_generated none counter now = generate_request_id counter now
or_generated (some text) counter now =
    let v = trim text in if is_valid_id v then (v, counter) else generate_request_id counter now

unfoldable pub request_id_for : List Header → ℕ → ℕ → List ℕ × ℕ
unfolding get_str generate_request_id
request_id_for headers counter now = or_generated (get_str headers "x-request-id") counter now

module _ (sha256 : String → List ℕ) (text_of : List ℕ → String) where
  abbrev pub identity_of : GatewayKey → String → GatewayIdentity
  identity_of key given = record {
    name = key.name;
    fallback_session_id = String.◌++◌ "orihsus-" (fingerprint sha256 given);
  }

  unfoldable authenticate_loop :
      List GatewayKey → String → Option GatewayIdentity → Option GatewayIdentity
  authenticate_loop [] given matched = matched
  authenticate_loop (key ∷ keys) given matched =
      authenticate_loop keys given
        (if str_eq given key.token.as_str then some (identity_of key given) else matched)

  unfoldable pub authenticate_gateway_key : List GatewayKey → String → Option GatewayIdentity
  unfolding authenticate_loop
  authenticate_gateway_key keys given = authenticate_loop keys given none

  -- `unwrap_or_default`.
  abbrev pub or_empty : Option (List ℕ) → String
  or_empty none = ""
  or_empty (some text) = text_of text

  abbrev bearer_in : Option (List ℕ) → Option (List ℕ)
  bearer_in none = none
  bearer_in (some text) = strip_prefix (codes "Bearer ") text

  abbrev pub given_bearer : List Header → String
  given_bearer headers = or_empty (bearer_in (get_str headers "authorization"))

  abbrev pub given_api_key : List Header → String
  given_api_key headers = or_empty (get_str headers "x-api-key")

  unfoldable pub check_auth : List GatewayKey → List Header → Result GatewayIdentity AuthError
  unfolding authenticate_gateway_key get_str strip_prefix
  check_auth keys headers = or_identity (authenticate_gateway_key keys (given_bearer headers))

  -- The answer of `check_auth`, or with the messages API what its own header matches.
  abbrev or_api_key :
      Result GatewayIdentity AuthError
      → UpstreamApi
      → Option GatewayIdentity
      → Result GatewayIdentity AuthError
  or_api_key (ok identity) api matched = ok identity
  or_api_key (err e) api matched = if is_messages api then or_identity matched else err unauthorized

  -- A snapshot of the store for each credential: `keys` is the one that `check_auth` takes, `later`
  -- the second.
  unfoldable pub check_proxy_auth :
      List GatewayKey
      → List GatewayKey
      → List Header
      → UpstreamApi
      → Result GatewayIdentity AuthError
  unfolding check_auth
  check_proxy_auth keys later headers api =
      or_api_key (check_auth keys headers) api
        (authenticate_gateway_key later (given_api_key headers))
