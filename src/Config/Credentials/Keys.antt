-- ===== src/Config/Credentials/Keys.antt =====
-- What the upstream keys and the address of src/config.rs satisfy once they are accepted.
use orihsus.Prelude.{
  ℕ, suc, ◌<◌, ◌≡◌, refl, ap, String, true, false, Option, none, some, List, [], ◌∷◌, map, length,
  length-map, any, All, Ensures, Ensures-map, Ensures-reject, Ensures->>=, arith, is_blank, str_eq,
  NoRepeat, Unseen, Unseen-head, Unseen-tail, insert,
}
use orihsus.Audit.Fingerprint.{fingerprint}
use orihsus.Config.Secret.{Secret}
use orihsus.Config.Raw.{RawKey, plain, named, RawListen}
use mathlib.Core.Path.{subst, sym}
use orihsus.Config.Types.{IpAddr, ConfigError, validation}
use orihsus.Config.Credentials.{is_loopback, load_listen, keys_loop, check_unique, load_keys}

abbrev pub IsFilled : String → Type 0
IsFilled s = is_blank s ≡ false

-- Accepted upstream keys: some, none blank, none twice.
pub record UpstreamKeysAreValid (ks : List Secret) : Type 0 where
  pub some_upstream : 0 < length ks
  pub filled : All (λ k. IsFilled k.as_str) ks
  pub differ : NoRepeat (map (λ k. k.as_str) ks)

keys_loop-IsFilled :
    (sha256 : String → List ℕ) (aliases : List (String × String)) (raw : List RawKey)
    → Ensures (λ r. (length r.0 ≡ length raw) × All IsFilled r.0) (keys_loop sha256 aliases raw)
unfolding keys_loop
keys_loop-IsFilled sha256 aliases [] = (refl, tt)
keys_loop-IsFilled sha256 aliases (plain key ∷ raw) =
    ground (arith, keys_loop-IsFilled sha256 aliases raw)
keys_loop-IsFilled sha256 aliases (named key none ∷ raw) =
    ground (arith, keys_loop-IsFilled sha256 aliases raw)
keys_loop-IsFilled sha256 aliases (named key (some name) ∷ raw) =
    ground (arith, keys_loop-IsFilled sha256 (insert (fingerprint sha256 key) name aliases) raw)

pub check_unique_lem :
    (e : ConfigError) (seen ss : List String)
    → Ensures (λ _. Unseen seen ss × NoRepeat ss) (check_unique e seen ss)
unfolding check_unique
check_unique_lem e seen [] = (tt, tt)
check_unique_lem e seen (s ∷ ss) =
    Ensures-reject (λ _. Unseen seen (s ∷ ss) × NoRepeat (s ∷ ss)) (any (str_eq s) seen) e
      (check_unique e (s ∷ seen) ss)
      (λ new.
        Ensures-map (λ _. Unseen (s ∷ seen) ss × NoRepeat ss)
          (λ _. Unseen seen (s ∷ ss) × NoRepeat (s ∷ ss)) (check_unique e (s ∷ seen) ss)
          (λ _ h. ((new, Unseen-tail s seen ss h.0), (Unseen-head s seen ss h.0, h.1)))
          (check_unique_lem e (s ∷ seen) ss))

secrets :
    (ks : List String) → map (λ k. k.as_str) (map {B = Secret} (λ s. record { as_str = s }) ks) ≡ ks
secrets [] = refl
secrets (k ∷ ks) = ap (◌∷◌ k) (secrets ks)

secrets-IsFilled :
    (ks : List String)
    → All IsFilled ks
    → All (λ k. IsFilled k.as_str) (map {B = Secret} (λ s. record { as_str = s }) ks)
secrets-IsFilled [] h = tt
secrets-IsFilled (k ∷ ks) h = (h.0, secrets-IsFilled ks h.1)

filled_length : {a b n : ℕ} → a ≡ b → b ≡ suc n → 0 < a
filled_length same some_raw = omega arith

secrets_valid :
    (n : ℕ) (ks : List String)
    → length ks ≡ suc n
    → All IsFilled ks
    → NoRepeat ks
    → UpstreamKeysAreValid (map (λ s. record { as_str = s }) ks)
secrets_valid n ks some_raw filled differ = record {
  some_upstream = filled_length (length-map (λ s. record { as_str = s }) ks) some_raw;
  filled = secrets-IsFilled ks filled;
  differ = subst NoRepeat (sym (secrets ks)) differ;
}

-- Whatever the setting is, when it is accepted there is an upstream key, none is blank, and none
-- stands twice.
pub load_keys-valid :
    (sha256 : String → List ℕ) (raw : Option (List RawKey))
    → Ensures (λ r. UpstreamKeysAreValid r.0) (load_keys sha256 raw)
unfolding load_keys
load_keys-valid sha256 none = tt
load_keys-valid sha256 (some []) = tt
load_keys-valid sha256 (some (k ∷ ks)) =
    Ensures->>= (λ r. (length r.0 ≡ suc (length ks)) × All IsFilled r.0)
      (λ r. UpstreamKeysAreValid r.0) (keys_loop sha256 [] (k ∷ ks)) _
      (keys_loop-IsFilled sha256 [] (k ∷ ks))
      (λ r h.
        Ensures->>= (λ _. Unseen [] r.0 × NoRepeat r.0) (λ r. UpstreamKeysAreValid r.0)
          (check_unique (validation "upstream keys must not contain duplicates") [] r.0) _
          (check_unique_lem (validation "upstream keys must not contain duplicates") [] r.0)
          (λ _ u. secrets_valid (length ks) r.0 h.0 h.1 u.1))

-- An accepted address is a loopback address.
pub load_listen-valid :
    (parse_ip : String → Option IpAddr) (raw : Option RawListen)
    → Ensures (λ a. is_loopback a.ip ≡ true) (load_listen parse_ip raw)
unfolding load_listen
load_listen-valid parse_ip raw = ground arith
