-- ===== src/Gateway/Identity/Known.antt =====
-- Whom the authentication of src/gateway.rs lets in.
use text.Mathlib.TextEquality.{eq_iff}
use mathlib.Core.Bool.{false≢true}
use orihsus.Prelude.{
  ◌≡◌, refl, sym, ◌∙◌, ◌⊎◌, inl, inr, ℕ, String, true, false, Option, none, some, List, [], ◌∷◌,
  any, arith, ok, err, str_eq, if◌then◌else◌, All, is_blank, Bool-cases, NoRepeat,
}
use orihsus.Config.Types.{GatewayKey}
use orihsus.Config.Credentials.Checked.{tokens_of, IsNamed, KeysAreValid}
use orihsus.Gateway.Headers.{Header, UpstreamApi, is_messages}
use orihsus.Gateway.Identity.{
  GatewayIdentity, unauthorized, identity_of, authenticate_loop, authenticate_gateway_key,
  given_bearer, given_api_key, check_auth, check_proxy_auth,
}

-- The key is one of the list.
abbrev pub IsIn : GatewayKey → List GatewayKey → Type 0
IsIn k [] = ⊥
IsIn k (key ∷ keys) = (k ≡ key) ⊎ IsIn k keys

-- No key has the token.
abbrev pub IsStranger : List GatewayKey → String → Type 0
IsStranger keys given = any (str_eq given) (tokens_of keys) ≡ false

module _ (sha256 : String → List ℕ) (text_of : List ℕ → String) where
  -- The identity is that of a key that has the token.
  abbrev pub IsKnown : List GatewayKey → String → GatewayIdentity → Type 0
  IsKnown keys given identity =
      (k : GatewayKey) × IsIn k keys
      × (str_eq given k.token.as_str ≡ true)
      × (identity ≡ identity_of sha256 text_of k given)

  loop-IsStranger :
      (keys : List GatewayKey) (given : String) (matched : Option GatewayIdentity)
      → IsStranger keys given
      → authenticate_loop sha256 text_of keys given matched ≡ matched
  unfolding authenticate_loop
  loop-IsStranger [] given matched stranger = refl
  loop-IsStranger (key ∷ keys) given matched stranger =
      elim (Bool-cases (str_eq given key.token.as_str)) [
        | inl hit ↦ ground arith
        | inr miss ↦ rw miss (loop-IsStranger keys given matched (ground arith))
      ]

  loop-cases :
      (keys : List GatewayKey) (given : String) (matched : Option GatewayIdentity)
      → (IsStranger keys given)
        ⊎ ((identity : GatewayIdentity) × (authenticate_loop sha256 text_of keys given matched
              ≡ some identity)
            × IsKnown keys given identity)
  unfolding authenticate_loop
  loop-cases [] given matched = inl refl
  loop-cases (key ∷ keys) given matched =
      let now =
        if str_eq given key.token.as_str
        then some (identity_of sha256 text_of key given)
        else matched in
      elim (loop-cases keys given now) [
        | inr (identity, found, (k, listed, hit, same)) ↦
            inr (identity, found, (k, inr listed, hit, same))
        | inl stranger ↦ elim (Bool-cases (str_eq given key.token.as_str)) [
          | inr miss ↦ inl (rw miss stranger)
          | inl hit ↦ inr (
            identity_of sha256 text_of key given,
            loop-IsStranger keys given now stranger ∙ rw hit refl,
            (key, inl refl, hit, refl),
          )
        ]
      ]

  authenticate-cases :
      (keys : List GatewayKey) (given : String)
      → ((authenticate_gateway_key sha256 text_of keys given ≡ none) × IsStranger keys given)
        ⊎ ((identity : GatewayIdentity) × (authenticate_gateway_key sha256 text_of keys given
              ≡ some identity)
            × IsKnown keys given identity)
  unfolding authenticate_gateway_key
  authenticate-cases keys given = elim (loop-cases keys given none) [
    | inl stranger ↦ inl (loop-IsStranger keys given none stranger, stranger)
    | inr known ↦ inr known
  ]

  -- The answer to a request, and what its credentials are to the keys.
  abbrev pub IsAdmitted : List GatewayKey → List GatewayKey → List Header → UpstreamApi → Type 0
  IsAdmitted keys later hs api =
      ((check_proxy_auth sha256 text_of keys later hs api ≡ err unauthorized)
        × IsStranger keys (given_bearer sha256 text_of hs)
        × ((is_messages api ≡ false) ⊎ IsStranger later (given_api_key sha256 text_of hs)))
      ⊎ ((identity : GatewayIdentity) × (check_proxy_auth sha256 text_of keys later hs api
            ≡ ok identity)
          × (IsKnown keys (given_bearer sha256 text_of hs) identity
              ⊎ ((is_messages api ≡ true)
                  × IsKnown later (given_api_key sha256 text_of hs) identity)))

  -- A proxied request is let in exactly if its bearer token is the token of a gateway key of the first
  -- snapshot, or for the messages API its `x-api-key` that of one of the second, and then under the
  -- name of a key that has it; any other request is answered unauthorized. Without a reload between
  -- them the two snapshots have the same keys.
  pub check_proxy_auth-IsAdmitted :
      (keys later : List GatewayKey) (hs : List Header) (api : UpstreamApi)
      → IsAdmitted keys later hs api
  unfolding check_proxy_auth check_auth
  check_proxy_auth-IsAdmitted keys later hs api =
      elim (authenticate-cases keys (given_bearer sha256 text_of hs)) [
        | inr (identity, found, known) ↦ inr (identity, rw found refl, inl known)
        | inl (missing, stranger) ↦ elim (Bool-cases (is_messages api)) [
          | inr other ↦ inl (rw (missing, other) refl, stranger, inl other)
          | inl is ↦ elim (authenticate-cases later (given_api_key sha256 text_of hs)) [
            | inr (identity, found, known) ↦
                inr (identity, rw (missing, is, found) refl, inr (is, known))
            | inl (absent, unlisted) ↦ inl (rw (missing, is, absent) refl, stranger, inr unlisted)
          ]
        ]
      ]

  loop-token :
      (keys : List GatewayKey) (k : GatewayKey) (matched : Option GatewayIdentity)
      → NoRepeat (tokens_of keys)
      → IsIn k keys
      → authenticate_loop sha256 text_of keys k.token.as_str matched
        ≡ some (identity_of sha256 text_of k k.token.as_str)
  unfolding authenticate_loop
  loop-token [] k matched differ listed = absurd listed
  loop-token (key ∷ keys) k matched differ (inr listed) = loop-token keys k _ differ.1 listed
  loop-token (key ∷ keys) k matched differ (inl same) =
      rw (same, (eq_iff key.token.as_str key.token.as_str).1 refl)
        (loop-IsStranger keys key.token.as_str _ differ.0)

  empty-is_blank : (s : String) → str_eq "" s ≡ true → is_blank s ≡ true
  unfolding is_blank
  empty-is_blank s same = rw (sym ((eq_iff "" s).0 same)) refl

  empty-IsStranger : (keys : List GatewayKey) → All IsNamed keys → IsStranger keys ""
  empty-IsStranger [] named = refl
  empty-IsStranger (key ∷ keys) ((_, _, filled), named) =
      elim (Bool-cases (str_eq "" key.token.as_str)) [
        | inl same ↦ absurd (false≢true (sym filled ∙ empty-is_blank key.token.as_str same))
        | inr other ↦ rw other (empty-IsStranger keys named)
      ]

  -- With accepted gateway keys, the token of each lets in that key and no other, and a request
  -- without a token is not let in.
  pub authenticate_gateway_key_lem :
      (keys : List GatewayKey) (k : GatewayKey)
      → KeysAreValid keys
      → IsIn k keys
      → (authenticate_gateway_key sha256 text_of keys k.token.as_str
          ≡ some (identity_of sha256 text_of k k.token.as_str))
        × (authenticate_gateway_key sha256 text_of keys "" ≡ none)
  unfolding authenticate_gateway_key
  authenticate_gateway_key_lem keys k valid listed = (
    loop-token keys k none valid.tokens_differ listed,
    loop-IsStranger keys "" none (empty-IsStranger keys valid.named_keys),
  )
