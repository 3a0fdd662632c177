-- ===== src/Gateway/Headers/Safe.antt =====
-- What the headers that src/gateway.rs forwards cannot hold.
use orihsus.Prelude.{
  ◌≡◌, refl, ◌∙◌, inl, inr, ℕ, Bool, true, false, ◌||◌, List, [], ◌∷◌, ◌++◌, any, arith,
  if◌then◌else◌, All, All-map, Bool-cases,
}
use orihsus.Config.Secret.{Secret}
use orihsus.Gateway.RateLimit.{strip_prefix}
use orihsus.Gateway.Sse.{ends_with}
use orihsus.Gateway.Headers.{
  Header, UpstreamApi, chat_completions, messages, responses, is_named, is_one_of,
  connection_named_headers, is_hop_by_hop, is_sensitive_request_header, is_allowed,
  should_forward_request_header, keep, header, session_header, key_header, forwarded_headers,
}

-- A header that tells the upstream nothing of the client's credentials or of the connection.
abbrev pub IsHarmless : Header → Type 0
IsHarmless h = (is_hop_by_hop h.name ≡ false) × (is_sensitive_request_header h.name ≡ false)

keep-All : (p : Header → Bool) (hs : List Header) → All (λ h. p h ≡ true) (keep p hs)
unfolding keep
keep-All p [] = tt
keep-All p (h ∷ hs) = elim (Bool-cases (p h)) [
  | inl passes ↦ rw passes (passes, keep-All p hs)
  | inr stopped ↦ rw stopped (keep-All p hs)
]

guards_false :
    (a b c d : Bool)
    → (if a || b || c then false else d) ≡ true
    → ((a ≡ false) × (c ≡ false)) × (b ≡ false) × (d ≡ true)
guards_false a b c d passes = ground arith

should_forward-IsHarmless :
    (connection : List (List ℕ)) (api : UpstreamApi) (h : Header)
    → should_forward_request_header h.name connection api ≡ true
    → IsHarmless h × (is_one_of h.name connection ≡ false) × (is_allowed h.name api ≡ true)
unfolding should_forward_request_header
should_forward-IsHarmless connection api h passes = guards_false _ _ _ _ passes

session-IsHarmless : (fallback : List ℕ) → IsHarmless (header "x-opencode-session" fallback)
unfolding is_hop_by_hop is_sensitive_request_header ends_with strip_prefix
session-IsHarmless fallback = (refl, refl)

keep-none : (p : Header → Bool) (hs : List Header) → All (λ h. p h ≡ false) hs → keep p hs ≡ []
unfolding keep
keep-none p [] none_of = refl
keep-none p (h ∷ hs) (stopped, rest) = rw stopped (keep-none p hs rest)

keep-append : (p : Header → Bool) (hs ks : List Header) → keep p (hs ++ ks) ≡ keep p hs ++ keep p ks
unfolding keep
keep-append p [] ks = refl
keep-append p (h ∷ hs) ks = elim (Bool-cases (p h)) [
  | inl passes ↦ rw (passes, keep-append p hs ks) refl
  | inr stopped ↦ rw stopped (keep-append p hs ks)
]

client-IsHarmless :
    (connection : List (List ℕ)) (api : UpstreamApi) (hs : List Header)
    → All IsHarmless (keep (λ h. should_forward_request_header h.name connection api) hs)
client-IsHarmless connection api hs =
    All-map _ (λ h passes. (should_forward-IsHarmless connection api h passes).0) (keep-All _ hs)

session_header-IsHarmless :
    (hs : List Header) (fallback : List ℕ) → All IsHarmless (session_header hs fallback)
session_header-IsHarmless hs fallback = elim (Bool-cases (any (is_named "x-opencode-session") hs)) [
  | inl present ↦ rw present tt
  | inr absent ↦ rw absent (session-IsHarmless fallback, tt)
]

-- What a test keeps of the upstream request, when it stops every harmless header, is what it keeps
-- of the key.
keep-forwarded_headers :
    (p : Header → Bool)
    → ((h : Header) → IsHarmless h → p h ≡ false)
    → (hs : List Header) (fallback : List ℕ) (api : UpstreamApi) (key : Secret)
    → keep p (forwarded_headers hs fallback api key) ≡ keep p (key_header api key ∷ [])
unfolding forwarded_headers
keep-forwarded_headers p stops hs fallback api key =
    let client =
      keep (λ h. should_forward_request_header h.name (connection_named_headers hs) api) hs in
    let session = session_header hs fallback in
    rw
      (
        keep-append p (client ++ session) (key_header api key ∷ []),
        keep-append p client session,
        keep-none p client (All-map _ stops (client-IsHarmless _ api hs)),
        keep-none p session (All-map _ stops (session_header-IsHarmless hs fallback)),
      )
      refl

key_header-is_sensitive :
    (api : UpstreamApi) (key : Secret)
    → is_sensitive_request_header (key_header api key).name ≡ true
unfolding is_sensitive_request_header
key_header-is_sensitive chat_completions key = refl
key_header-is_sensitive messages key = refl
key_header-is_sensitive responses key = refl

key_header-is_hop_by_hop :
    (api : UpstreamApi) (key : Secret) → is_hop_by_hop (key_header api key).name ≡ false
unfolding is_hop_by_hop
key_header-is_hop_by_hop chat_completions key = refl
key_header-is_hop_by_hop messages key = refl
key_header-is_hop_by_hop responses key = refl

-- The upstream request has one sensitive header, the one with the pool's key, and no hop-by-hop
-- header, whatever headers the client sends.
pub forwarded_headers-IsSafe :
    (hs : List Header) (fallback : List ℕ) (api : UpstreamApi) (key : Secret)
    → (keep (λ h. is_sensitive_request_header h.name) (forwarded_headers hs fallback api key)
        ≡ key_header api key ∷ [])
      × (keep (λ h. is_hop_by_hop h.name) (forwarded_headers hs fallback api key) ≡ [])
unfolding keep
forwarded_headers-IsSafe hs fallback api key = (
  keep-forwarded_headers _ (λ h harmless. harmless.1) hs fallback api key
      ∙ rw (key_header-is_sensitive api key) refl,
  keep-forwarded_headers _ (λ h harmless. harmless.0) hs fallback api key
      ∙ rw (key_header-is_hop_by_hop api key) refl,
)
