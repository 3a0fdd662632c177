-- ===== src/Config/Credentials/Checked.antt =====
-- What the credentials of src/config.rs satisfy once they are accepted.
use orihsus.Prelude.{
  ℕ, suc, ◌<◌, ◌≤◌, ◌≡◌, refl, ap, inl, inr, String, false, ◌||◌, Option, none, some, List, [], ◌∷◌,
  map, length, any, All, Result, ok, err, ◌>>=◌, Ensures, arith, ltb, len, is_blank, str_eq,
  Bool-cases, NoRepeat, Unseen, Unseen-head, Unseen-tail,
}
use orihsus.Config.Raw.{RawGatewayKey}
use orihsus.Config.Types.{GatewayKey, ConfigError}
use orihsus.Config.Credentials.{gateway_keys_loop, load_gateway_keys}

abbrev pub names_of : List GatewayKey → List String
names_of = map (λ k. k.name)

abbrev pub tokens_of : List GatewayKey → List String
tokens_of = map (λ k. k.token.as_str)

-- A gateway key has a name of 1 to 128 bytes that is not blank, and a token that is not blank.
abbrev pub IsNamed : GatewayKey → Type 0
IsNamed k = (is_blank k.name ≡ false) × (len k.name ≤ 128) × (is_blank k.token.as_str ≡ false)

-- Accepted gateway keys: some, each well named, no name and no token twice.
pub record KeysAreValid (ks : List GatewayKey) : Type 0 where
  pub some_key : 0 < length ks
  pub named_keys : All IsNamed ks
  pub names_differ : NoRepeat (names_of ks)
  pub tokens_differ : NoRepeat (tokens_of ks)

record Checked (names tokens : List String) (raw : List RawGatewayKey) (ks : List GatewayKey)
    : Type 0 where
  same_length : length ks ≡ length raw
  named_keys : All IsNamed ks
  names_unseen : Unseen names (names_of ks)
  tokens_unseen : Unseen tokens (tokens_of ks)
  names_differ : NoRepeat (names_of ks)
  tokens_differ : NoRepeat (tokens_of ks)

add-Checked :
    (names tokens : List String) (entry : RawGatewayKey) (raw : List RawGatewayKey)
    (ks : List GatewayKey)
    → (is_blank entry.name || ltb 128 (len entry.name)) ≡ false
    → is_blank entry.token ≡ false
    → any (str_eq entry.name) names ≡ false
    → any (str_eq entry.token) tokens ≡ false
    → Checked (entry.name ∷ names) (entry.token ∷ tokens) raw ks
    → Checked names tokens
        (entry ∷ raw)
        (record { name = entry.name; token = record { as_str = entry.token } } ∷ ks)
add-Checked names tokens entry raw ks well_named full name_new token_new c = record {
  same_length = ap suc c.same_length;
  named_keys = ((ground arith, ground arith, full), c.named_keys);
  names_unseen = (name_new, Unseen-tail entry.name names (names_of ks) c.names_unseen);
  tokens_unseen = (token_new, Unseen-tail entry.token tokens (tokens_of ks) c.tokens_unseen);
  names_differ = (Unseen-head entry.name names (names_of ks) c.names_unseen, c.names_differ);
  tokens_differ = (Unseen-head entry.token tokens (tokens_of ks) c.tokens_unseen, c.tokens_differ);
}

gateway_keys_loop-Checked :
    (names tokens : List String) (raw : List RawGatewayKey)
    → Ensures (Checked names tokens raw) (gateway_keys_loop names tokens raw)
unfolding gateway_keys_loop
gateway_keys_loop-Checked names tokens [] = record {
  same_length = refl;
  named_keys = tt;
  names_unseen = tt;
  tokens_unseen = tt;
  names_differ = tt;
  tokens_differ = tt;
}
gateway_keys_loop-Checked names tokens (entry ∷ raw) =
    let rest = gateway_keys_loop-Checked (entry.name ∷ names) (entry.token ∷ tokens) raw in
    elim (Bool-cases (is_blank entry.name || ltb 128 (len entry.name))) [
      | inl bad ↦ rw bad tt
      | inr well_named ↦ elim (Bool-cases (is_blank entry.token)) [
        | inl bad ↦ rw (well_named, bad) tt
        | inr full ↦ elim (Bool-cases (any (str_eq entry.name) names)) [
          | inl twice ↦ rw (well_named, full, twice) tt
          | inr name_new ↦ elim (Bool-cases (any (str_eq entry.token) tokens)) [
            | inl twice ↦ rw (well_named, full, name_new, twice) tt
            | inr token_new ↦
                rw (well_named, full, name_new, token_new)
                  (accept (gateway_keys_loop (entry.name ∷ names) (entry.token ∷ tokens) raw) rest
                    (λ ks c.
                      add-Checked names tokens entry raw ks well_named full name_new token_new c))
          ]
        ]
      ]
    ]
  where
    accept :
        (r : Result (List GatewayKey) ConfigError)
        → Ensures (Checked (entry.name ∷ names) (entry.token ∷ tokens) raw) r
        → ((ks : List GatewayKey)
            → Checked (entry.name ∷ names) (entry.token ∷ tokens) raw ks
            → Checked names tokens
                (entry ∷ raw)
                (record { name = entry.name; token = record { as_str = entry.token } } ∷ ks))
        → Ensures (Checked names tokens (entry ∷ raw)) (
            r >>= λ ks.
            ok (record { name = entry.name; token = record { as_str = entry.token } } ∷ ks))
    accept (ok ks) c f = f ks c
    accept (err e) c f = tt

positive : (a b n : ℕ) → a ≡ b → b ≡ suc n → 0 < a
positive a b n same some_raw = omega arith

all_valid :
    (n : ℕ) (r : Result (List GatewayKey) ConfigError) (raw : List RawGatewayKey)
    → length raw ≡ suc n
    → Ensures (Checked [] [] raw) r
    → Ensures KeysAreValid r
all_valid n (err e) raw some_raw c = tt
all_valid n (ok ks) raw some_raw c = record {
  some_key = positive (length ks) (length raw) n c.same_length some_raw;
  named_keys = c.named_keys;
  names_differ = c.names_differ;
  tokens_differ = c.tokens_differ;
}

-- Whatever the two settings are, when they are accepted there is a gateway key, each name is not
-- blank and has at most 128 bytes, no token is blank, and no name and no token stands twice.
pub load_gateway_keys-valid :
    (token : Option String) (entries : Option (List RawGatewayKey))
    → Ensures KeysAreValid (load_gateway_keys token entries)
unfolding load_gateway_keys is_blank
load_gateway_keys-valid (some token) (some entries) = tt
load_gateway_keys-valid (some token) none = elim (Bool-cases (is_blank token)) [
  | inl bad ↦ rw bad tt
  | inr full ↦ rw full (record {
    some_key = omega arith;
    named_keys = ((refl, omega arith, full), tt);
    names_differ = (refl, tt);
    tokens_differ = (refl, tt);
  })
]
load_gateway_keys-valid none (some []) = tt
load_gateway_keys-valid none none = tt
load_gateway_keys-valid none (some (entry ∷ entries)) =
    all_valid (length entries) (gateway_keys_loop [] [] (entry ∷ entries)) (entry ∷ entries) refl
      (gateway_keys_loop-Checked [] [] (entry ∷ entries))
