-- ===== src/Gateway/Tests/Forwards.antt =====
-- The theorems on the headers and the identity of a request of src/gateway.rs, at a client with two
-- credentials.
use orihsus.Prelude.{
  ◌≡◌, ◌⊎◌, refl, inl, inr, ℕ, String, true, none, some, List, [], ◌∷◌, if◌then◌else◌, is_blank,
  is_whitespace, arith,
}
use orihsus.Config.Secret.{Secret}
use orihsus.Config.Types.{GatewayKey}
use orihsus.Config.Credentials.Checked.{KeysAreValid}
use orihsus.Gateway.RateLimit.{codes, same_text, strip_prefix, drop_while}
use orihsus.Gateway.Headers.{
  Header, messages, header, is_sensitive_request_header, is_hop_by_hop, keep, key_header, trim,
  forwarded_headers,
}
use orihsus.Gateway.Headers.Safe.{forwarded_headers-IsSafe}
use orihsus.Gateway.Identity.{
  get_str, identity_of, authenticate_gateway_key, is_valid_id, all_id_bytes, generate_request_id,
  request_id_for,
}
use orihsus.Gateway.Identity.Known.{
  IsAdmitted, check_proxy_auth-IsAdmitted, authenticate_gateway_key_lem,
}
use orihsus.Gateway.Identity.Ids.{request_id_for-Valid}

abbrev client_headers : List Header
client_headers =
    header "authorization" (codes "Bearer guess")
    ∷ header "x-api-key" (codes "token-b")
    ∷ header "accept" (codes "text/event-stream")
    ∷ header "connection" (codes "keep-alive, X-Opencode-Session")
    ∷ header "x-opencode-session" (codes "s1")
    ∷ header "x-request-id" (codes " r-1 ")
    ∷ []

abbrev upstream_key : Secret
upstream_key = record { as_str = "sk-upstream" }

abbrev two_gateway_keys : List GatewayKey
two_gateway_keys =
    record { name = "a"; token = record { as_str = "token-a" } }
    ∷ record { name = "b"; token = record { as_str = "token-b" } }
    ∷ []

abbrev no_digest : String → List ℕ
no_digest text = 171 ∷ 205 ∷ []

abbrev some_text : List ℕ → String
some_text text = if same_text text (codes "token-b") then "token-b" else "guess"

two_keys-valid : KeysAreValid two_gateway_keys
unfolding is_blank is_whitespace
two_keys-valid = record {
  some_key = omega arith;
  named_keys = ((refl, omega arith, refl), ((refl, omega arith, refl), tt));
  names_differ = (refl, (refl, tt));
  tokens_differ = (refl, (refl, tt));
}

forwarded_headers-IsSafe_example :
    (keep
        (λ h. is_sensitive_request_header h.name)
        (forwarded_headers client_headers (codes "f") messages upstream_key)
      ≡ key_header messages upstream_key ∷ [])
    × (keep
          (λ h. is_hop_by_hop h.name)
          (forwarded_headers client_headers (codes "f") messages upstream_key)
        ≡ [])
forwarded_headers-IsSafe_example =
    forwarded_headers-IsSafe client_headers (codes "f") messages upstream_key

check_proxy_auth-IsAdmitted_example :
    IsAdmitted no_digest some_text [] two_gateway_keys client_headers messages
check_proxy_auth-IsAdmitted_example =
    check_proxy_auth-IsAdmitted no_digest some_text [] two_gateway_keys client_headers messages

authenticate_gateway_key_lem_example :
    (authenticate_gateway_key no_digest some_text two_gateway_keys "token-b"
      ≡ some (
          identity_of no_digest some_text
            (record { name = "b"; token = record { as_str = "token-b" } })
            "token-b"))
    × (authenticate_gateway_key no_digest some_text two_gateway_keys "" ≡ none)
authenticate_gateway_key_lem_example =
    authenticate_gateway_key_lem no_digest some_text two_gateway_keys
      (record { name = "b"; token = record { as_str = "token-b" } }) two_keys-valid (inr (inl refl))

request_id_for-Valid_example :
    (is_valid_id (request_id_for client_headers 7 99).0 ≡ true)
    × ((request_id_for client_headers 7 99 ≡ generate_request_id 7 99)
        ⊎ ((text : List ℕ) × (get_str client_headers "x-request-id" ≡ some text)
            × (request_id_for client_headers 7 99 ≡ (trim text, 7))))
request_id_for-Valid_example = request_id_for-Valid client_headers 7 99

-- The client's own identifier is taken, without its blanks.
own_id : request_id_for client_headers 7 99 ≡ (codes "r-1", 7)
unfolding request_id_for get_str trim all_id_bytes drop_while is_whitespace strip_prefix
own_id = refl
