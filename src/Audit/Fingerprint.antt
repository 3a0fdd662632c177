-- ===== src/Audit/Fingerprint.antt =====
-- `fingerprint` of src/audit.rs. The digest is a third party's, and a parameter: it takes a text to
-- the bytes of the SHA-256 of its UTF-8 form.
use Prim.Native.String.{slice, ◌++◌}
use orihsus.Prelude.{ℕ, zero, suc, ◌/◌, ◌%◌, String, List, [], ◌∷◌}

-- The digit of a number below 16, in lower case.
abbrev hex_digit : ℕ → String
hex_digit n = nth n (
    "0" ∷ "1" ∷ "2" ∷ "3" ∷ "4" ∷ "5" ∷ "6" ∷ "7" ∷ "8" ∷ "9" ∷ "a" ∷ "b" ∷ "c" ∷ "d" ∷ "e" ∷ "f"
    ∷ [])
  where
    nth : ℕ → List String → String
    nth n [] = ""
    nth zero (x ∷ xs) = x
    nth (suc n) (x ∷ xs) = nth n xs

-- `format!("{b:02x}")` of each byte, collected.
hex : List ℕ → String
hex [] = ""
hex (b ∷ bs) = (hex_digit (b / 16) ++ hex_digit (b % 16)) ++ hex bs

unfoldable pub fingerprint : (String → List ℕ) → String → String
unfolding hex
fingerprint sha256 secret = slice (hex (sha256 secret)) 0 12
