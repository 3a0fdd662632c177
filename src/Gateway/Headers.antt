-- ===== src/Gateway/Headers.antt =====
-- The headers that src/gateway.rs forwards: `forward_request` to the upstream, without the sending,
-- and `filter_response_headers` to the client. A text is the list of its code points, a value the
-- list of its bytes, and a name is in lower case, as the `http` crate keeps it.
pub mod Safe
use orihsus.Prelude.{
  ℕ, String, Bool, true, false, not, ◌&&◌, ◌||◌, Option, none, some, List, [], ◌∷◌, ◌++◌, map, any,
  leb, ◌==◌, if◌then◌else◌, is_whitespace,
}
use orihsus.Config.Secret.{Secret}
use orihsus.Gateway.RateLimit.{codes, lower, same_text, strip_prefix, drop_while}
use orihsus.Gateway.Sse.{ends_with, trim_end}

pub record Header : Type 0 where
  pub name : List ℕ
  pub value : List ℕ

pub data UpstreamApi : Type 0 where
  chat_completions messages responses : UpstreamApi

abbrev pub is_messages : UpstreamApi → Bool
is_messages messages = true
is_messages _ = false

-- `slice::contains` and `matches!` on literals.
abbrev pub is_one_of : List ℕ → List (List ℕ) → Bool
is_one_of text texts = any (same_text text) texts

abbrev pub is_named : String → Header → Bool
is_named name h = same_text h.name (codes name)

abbrev pub starts_with : List ℕ → String → Bool
starts_with text prefix = elim (strip_prefix (codes prefix) text) [
  | none ↦ false
  | some rest ↦ true
]

abbrev pub has_suffix : List ℕ → String → Bool
has_suffix text suffix = ends_with text (codes suffix)

-- `HeaderValue::to_str`: visible ASCII, blanks and tabs.
abbrev is_visible : List ℕ → Bool
is_visible [] = true
is_visible (b ∷ bs) = (b == 9 || (leb 32 b && leb b 126)) && is_visible bs

abbrev pub to_str : List ℕ → Option (List ℕ)
to_str value = if is_visible value then some value else none

-- `split(',')`.
abbrev pub first_piece : ℕ → List (List ℕ) → List (List ℕ)
first_piece c [] = (c ∷ []) ∷ []
first_piece c (l ∷ ls) = (c ∷ l) ∷ ls

unfoldable pub split_commas : List ℕ → List (List ℕ)
split_commas [] = [] ∷ []
split_commas (c ∷ s) =
    let rest = split_commas s in if c == 44 then [] ∷ rest else first_piece c rest

unfoldable pub trim : List ℕ → List ℕ
unfolding trim_end drop_while
trim text = trim_end (drop_while is_whitespace text)

abbrev named_in : Option (List ℕ) → List (List ℕ)
named_in none = []
named_in (some text) = map (λ part. map lower (trim part)) (split_commas text)

unfoldable pub connection_named_headers : List Header → List (List ℕ)
connection_named_headers [] = []
connection_named_headers (h ∷ hs) =
    let rest = connection_named_headers hs in
    if is_named "connection" h then named_in (to_str h.value) ++ rest else rest

abbrev hop_by_hop : List String
hop_by_hop =
    "connection" ∷ "keep-alive" ∷ "proxy-authenticate" ∷ "proxy-authorization" ∷ "te" ∷ "trailer"
    ∷ "transfer-encoding" ∷ "upgrade" ∷ []

unfoldable pub is_hop_by_hop : List ℕ → Bool
is_hop_by_hop name = is_one_of name (map codes hop_by_hop)

abbrev sensitive_names : List String
sensitive_names =
    "authorization" ∷ "proxy-authorization" ∷ "cookie" ∷ "cookie2" ∷ "x-api-key" ∷ "api-key"
    ∷ "x-real-ip" ∷ "forwarded" ∷ "x-forwarded-for" ∷ "x-forwarded-host" ∷ "x-forwarded-proto"
    ∷ "x-forwarded-port" ∷ "baggage" ∷ "traceparent" ∷ "tracestate" ∷ "b3" ∷ "x-ot-span-context"
    ∷ "grpc-trace-bin" ∷ []

unfoldable pub is_sensitive_request_header : List ℕ → Bool
is_sensitive_request_header name =
    is_one_of name (map codes sensitive_names)
    || has_suffix name "-authorization"
    || has_suffix name "-api-key"
    || starts_with name "x-forwarded-"
    || starts_with name "x-b3-"

-- The rule that lets a name through, behind the rules that stop it.
unfoldable pub is_allowed : List ℕ → UpstreamApi → Bool
is_allowed name api =
    starts_with name "x-opencode-"
    || is_one_of name (map codes ("content-type" ∷ "accept" ∷ "user-agent" ∷ []))
    || (is_messages api && is_one_of name (map codes ("anthropic-version" ∷ "anthropic-beta" ∷ [])))

unfoldable pub should_forward_request_header : List ℕ → List (List ℕ) → UpstreamApi → Bool
should_forward_request_header name connection api =
    if is_hop_by_hop name || is_one_of name connection || is_sensitive_request_header name
    then false
    else is_allowed name api

-- The headers that pass a test, in their order.
unfoldable pub keep : (Header → Bool) → List Header → List Header
keep p [] = []
keep p (h ∷ hs) = let rest = keep p hs in if p h then h ∷ rest else rest

abbrev pub header : String → List ℕ → Header
header name value = record { name = codes name; value = value }

abbrev opencode_session : String
opencode_session = "x-opencode-session"

abbrev pub session_header : List Header → List ℕ → List Header
session_header headers fallback =
    if any (is_named opencode_session) headers then [] else header opencode_session fallback ∷ []

abbrev pub key_header : UpstreamApi → Secret → Header
key_header api key =
    if is_messages api
    then header "x-api-key" (codes key.as_str)
    else header "authorization" (codes "Bearer " ++ codes key.as_str)

-- The headers of the upstream request: those of the client that are let through, its session, and
-- the key.
unfoldable pub forwarded_headers : List Header → List ℕ → UpstreamApi → Secret → List Header
unfolding connection_named_headers should_forward_request_header keep
forwarded_headers headers fallback_session_id api key =
    let connection = connection_named_headers headers in
    (keep (λ h. should_forward_request_header h.name connection api) headers
      ++ session_header headers fallback_session_id)
    ++ key_header api key ∷ []

abbrev pub passes_back : List (List ℕ) → Header → Bool
passes_back connection h =
    if is_hop_by_hop h.name || is_one_of h.name connection
    then false
    else not (is_one_of h.name (map codes ("content-length" ∷ "transfer-encoding" ∷ [])))

unfoldable pub filter_response_headers : List Header → List Header
unfolding connection_named_headers keep
filter_response_headers headers = keep (passes_back (connection_named_headers headers)) headers
