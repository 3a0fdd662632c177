-- ===== src/Gateway/RateLimit/Reads.antt =====
-- What `parse_resets_in` of src/gateway.rs reads from the phrase that the upstream writes.
use orihsus.Prelude.{
  ℕ, ◌<◌, ◌≤◌, ◌*◌, ◌≡◌, refl, ap, ◌∙◌, Bool, true, false, Option, none, some, List, [], ◌∷◌, ◌++◌,
  map, All, Bool-cases, inl, inr, arith, ltb, ◌==◌, is_whitespace, if◌then◌else◌,
}
use orihsus.Time.{from_secs}
use orihsus.Gateway.RateLimit.{
  codes, lower, strip_prefix, after_phrase, take_while, drop_while, number, parse_u64, checked_mul,
  u64_limit, unit_secs, trim_s, is_digit, is_letter, resets_after, parse_resets_in,
}

abbrev pub IsDigit : ℕ → Type 0
IsDigit c = is_digit c ≡ true

-- So many times the factor, in seconds, unless that does not fit 64 bits.
abbrev pub checked_secs : ℕ → ℕ → Option ℕ
checked_secs n factor = if ltb (n * factor) u64_limit then some (from_secs (n * factor)) else none

hours :
    unit_secs (trim_s (take_while is_letter (drop_while is_whitespace (codes " hours."))))
    ≡ some 3600
unfolding unit_secs trim_s take_while drop_while is_whitespace
hours = refl

module _ (p : ℕ → Bool) where
  take_while-append :
      (xs : List ℕ) (c : ℕ) (s : List ℕ)
      → All (λ x. p x ≡ true) xs
      → p c ≡ false
      → take_while p (xs ++ c ∷ s) ≡ xs
  unfolding take_while
  take_while-append [] c s all stop = rw stop refl
  take_while-append (x ∷ xs) c s all stop =
      rw all.0 (ap (◌∷◌ x) (take_while-append xs c s all.1 stop))

  drop_while-append :
      (xs : List ℕ) (c : ℕ) (s : List ℕ)
      → All (λ x. p x ≡ true) xs
      → p c ≡ false
      → drop_while p (xs ++ c ∷ s) ≡ c ∷ s
  unfolding drop_while
  drop_while-append [] c s all stop = rw stop refl
  drop_while-append (x ∷ xs) c s all stop = rw all.0 (drop_while-append xs c s all.1 stop)

lower-digits : (xs s : List ℕ) → All IsDigit xs → map lower (xs ++ s) ≡ xs ++ map lower s
unfolding lower
lower-digits [] s all = refl
lower-digits (x ∷ xs) s all = rw (lower-digits xs s all.1) (ground arith)

digit_visible : (c : ℕ) → IsDigit c → is_whitespace c ≡ false
unfolding is_whitespace
digit_visible c digit = ground arith

parse_u64-fits :
    (c : ℕ) (s : List ℕ)
    → parse_u64 (c ∷ s)
      ≡ (if ltb (number 0 (c ∷ s)) u64_limit then some (number 0 (c ∷ s)) else none)
unfolding parse_u64
parse_u64-fits c s = refl

larger : (n factor : ℕ) → ltb n u64_limit ≡ false → 0 < factor → ltb (n * factor) u64_limit ≡ false
larger n factor large some_factor =
    let grown : n * 1 ≤ n * factor = grind arith in ground (arith, grown)

product_secs :
    (n factor : ℕ)
    → (elim (checked_mul n factor) [ none ↦ none | some secs ↦ some (from_secs secs) ])
      ≡ checked_secs n factor
product_secs n factor = elim (Bool-cases (ltb (n * factor) u64_limit)) [
  | inl fits ↦ rw fits refl
  | inr large ↦ rw large refl
]

-- What is read, by what its parts are.
resets_after_lem :
    (text rest : List ℕ) (c : ℕ) (s tail : List ℕ) (factor : ℕ)
    → drop_while is_whitespace text ≡ rest
    → take_while is_digit rest ≡ c ∷ s
    → drop_while is_digit rest ≡ tail
    → unit_secs (trim_s (take_while is_letter (drop_while is_whitespace tail))) ≡ some factor
    → 0 < number 0 (c ∷ s)
    → 0 < factor
    → resets_after text ≡ checked_secs (number 0 (c ∷ s)) factor
unfolding resets_after
resets_after_lem text rest c s tail factor shown taken dropped unit some_count some_factor =
    let n = number 0 (c ∷ s) in
    let read = ap parse_u64 taken ∙ parse_u64-fits c s in
    elim (Bool-cases (ltb n u64_limit)) [
      | inr large ↦ rw (shown, read, large, larger n factor large some_factor, resets_after) refl
      | inl fits ↦
          let counts : (n == 0) ≡ false = ground arith in
          let whole : unit_secs (
                trim_s (
                  take_while is_letter (
                    drop_while is_whitespace
                      (drop_while is_digit (drop_while is_whitespace text)))))
              ≡ some factor =
            rw (shown, dropped) unit in
          rw (shown, read, fits, counts, whole, resets_after) (product_secs n factor)
    ]

visible_rest : (d : ℕ) (s : List ℕ) → IsDigit d → drop_while is_whitespace (32 ∷ d ∷ s) ≡ d ∷ s
unfolding drop_while is_whitespace
visible_rest d s digit = rw (digit_visible d digit) refl

hours_after :
    (d : ℕ) (ds : List ℕ)
    → All IsDigit (d ∷ ds)
    → 0 < number 0 (d ∷ ds)
    → resets_after (32 ∷ (d ∷ ds) ++ codes " hours.") ≡ checked_secs (number 0 (d ∷ ds)) 3600
hours_after d ds all some_hour =
    resets_after_lem (32 ∷ (d ∷ ds) ++ codes " hours.") ((d ∷ ds) ++ codes " hours.") d ds
      (codes " hours.") 3600 (visible_rest d (ds ++ codes " hours.") all.0)
      (take_while-append is_digit (d ∷ ds) 32 (codes "hours.") all refl)
      (drop_while-append is_digit (d ∷ ds) 32 (codes "hours.") all refl) hours some_hour
      (omega arith)

-- A message that says `Resets in`, a space, the digits of a positive number, a space and `hours.` is
-- read as that number of hours, and as nothing if the seconds do not fit 64 bits.
pub parse_resets_in-hours :
    (d : ℕ) (ds : List ℕ)
    → All IsDigit (d ∷ ds)
    → 0 < number 0 (d ∷ ds)
    → parse_resets_in (codes "Resets in " ++ (d ∷ ds) ++ codes " hours.")
      ≡ checked_secs (number 0 (d ∷ ds)) 3600
unfolding parse_resets_in after_phrase strip_prefix lower
parse_resets_in-hours d ds all some_hour =
    ap resets_after (ap (◌∷◌ 32) (lower-digits (d ∷ ds) (codes " hours.") all))
    ∙ hours_after d ds all some_hour
