-- ===== src/Config/Credentials.antt =====
-- The credentials and the address of src/config.rs: the first part of `Config::try_from`.
pub mod Checked
pub mod Keys
use mathlib.Core.Option.{get_or}
use orihsus.Prelude.{
  ℕ, String, Bool, true, false, not, ◌&&◌, ◌||◌, Option, none, some, List, [], ◌∷◌, map, any,
  insert, len, is_blank, str_eq, ltb, leb, ◌==◌, if◌then◌else◌, Result, ok, err, ◌>>=◌, ◌>>◌,
  reject,
}
use orihsus.Audit.Fingerprint.{fingerprint}
use orihsus.Config.Secret.{Secret}
use orihsus.Config.Raw.{RawGatewayKey, RawKey, plain, named, RawListen}
use orihsus.Config.Types.{GatewayKey, IpAddr, v4, v6, SocketAddr, ConfigError, validation}

-- The loop over the gateway keys, with the names and the tokens that it has seen.
unfoldable pub gateway_keys_loop :
    List String → List String → List RawGatewayKey → Result (List GatewayKey) ConfigError
gateway_keys_loop names tokens [] = ok []
gateway_keys_loop names tokens (entry ∷ entries) = do
  reject (is_blank entry.name || ltb 128 (len entry.name))
      (validation "gateway key names must be non-blank and at most 128 bytes")
  reject (is_blank entry.token) (validation "gateway key tokens must be non-empty")
  reject (any (str_eq entry.name) names) (validation "gateway key names must be unique")
  reject (any (str_eq entry.token) tokens) (validation "gateway key tokens must be unique")
  keys ← gateway_keys_loop (entry.name ∷ names) (entry.token ∷ tokens) entries
  ok (record { name = entry.name; token = record { as_str = entry.token } } ∷ keys)

unfoldable pub load_gateway_keys :
    Option String → Option (List RawGatewayKey) → Result (List GatewayKey) ConfigError
unfolding gateway_keys_loop
load_gateway_keys (some token) (some entries) =
    err (validation "set either gateway_token or gateway_keys, not both")
load_gateway_keys (some token) none = do
  reject (is_blank token) (validation "gateway token must be non-empty")
  ok (record { name = "legacy"; token = record { as_str = token } } ∷ [])
load_gateway_keys none (some []) = err (validation "at least one gateway key is required")
load_gateway_keys none (some (entry ∷ entries)) = gateway_keys_loop [] [] (entry ∷ entries)
load_gateway_keys none none = err (validation "gateway_token or gateway_keys must be set")

-- `IpAddr::is_loopback`: 127.0.0.0/8, and ::1.
unfoldable pub is_loopback : IpAddr → Bool
is_loopback (v4 a b c d) = a == 127
is_loopback (v6 (a ∷ b ∷ c ∷ d ∷ e ∷ f ∷ g ∷ h ∷ [])) =
    a == 0 && b == 0 && c == 0 && d == 0 && e == 0 && f == 0 && g == 0 && h == 1
is_loopback (v6 groups) = false

-- The parser of addresses is the standard library's, and a parameter.
unfoldable pub load_listen :
    (String → Option IpAddr) → Option RawListen → Result SocketAddr ConfigError
unfolding is_loopback
load_listen parse_ip raw =
    let host : Option String = elim raw [ none ↦ none | some l ↦ l.host ] in
    let port : Option ℕ = elim raw [ none ↦ none | some l ↦ l.port ] in
    elim (parse_ip (get_or host "127.0.0.1")) [
      | none ↦ err (validation "listen.host must be a valid IP address")
      | some ip ↦ do
        reject (not (is_loopback ip))
            (validation "listen.host must be a loopback address; expose the service through nginx")
        ok (record { ip = ip; port = get_or port 8080 })
    ]

-- The loop over the upstream keys: the keys, and the aliases by fingerprint.
unfoldable pub keys_loop :
    (String → List ℕ)
    → List (String × String)
    → List RawKey
    → Result (List String × List (String × String)) ConfigError
keys_loop sha256 aliases [] = ok ([], aliases)
keys_loop sha256 aliases (plain key ∷ raw) = do
  reject (is_blank key) (validation "upstream keys must be non-empty")
  (keys, all) ← keys_loop sha256 aliases raw
  ok (key ∷ keys, all)
keys_loop sha256 aliases (named key none ∷ raw) = do
  reject (is_blank key) (validation "upstream keys must be non-empty")
  (keys, all) ← keys_loop sha256 aliases raw
  ok (key ∷ keys, all)
keys_loop sha256 aliases (named key (some name) ∷ raw) = do
  reject (is_blank key) (validation "upstream keys must be non-empty")
  reject (is_blank name || ltb 128 (len name))
      (validation "upstream key names must be non-blank and at most 128 bytes")
  (keys, all) ← keys_loop sha256 (insert (fingerprint sha256 key) name aliases) raw
  ok (key ∷ keys, all)

-- The loop over a list that must not hold a text twice.
unfoldable pub check_unique :
    ConfigError → List String → List String → Result (Unit {0}) ConfigError
check_unique e seen [] = ok tt
check_unique e seen (s ∷ ss) = do reject (any (str_eq s) seen) e; check_unique e (s ∷ seen) ss

unfoldable pub load_keys :
    (String → List ℕ)
    → Option (List RawKey)
    → Result (List Secret × List (String × String)) ConfigError
unfolding keys_loop check_unique
load_keys sha256 none = err (validation "at least one upstream key is required")
load_keys sha256 (some []) = err (validation "at least one upstream key is required")
load_keys sha256 (some (k ∷ ks)) = do
  (keys, aliases) ← keys_loop sha256 [] (k ∷ ks)
  check_unique (validation "upstream keys must not contain duplicates") [] keys
  ok (map (λ s. record { as_str = s }) keys, aliases)
