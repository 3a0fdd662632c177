-- ===== src/Gateway/Sse/Tail.antt =====
-- The window of four bytes in `SseUsageParser::push` of src/gateway.rs.
use mathlib.Core.Path.{ap₂}
use native.Mathlib.Decide.{dec_lt}
use mathlib.Core.List.{List, [], ◌∷◌, ◌++◌}
use orihsus.Prelude.{
  ℕ, zero, suc, ◌+◌, ◌-◌, ◌≤◌, ◌<◌, ◌≡◌, refl, sym, ap, ◌∙◌, true, false, ◌||◌, length,
  length-append, length-drop, drop, ◌==◌, arith,
}
use orihsus.Gateway.RateLimit.{same_text}
use orihsus.Gateway.Sse.{ends_with, at_delimiter, slide}

abbrev pub last_four : List ℕ → List ℕ
last_four xs = drop (length xs - 4) xs

module _ {ℓ} {A : Type ℓ} where
  drop-nil : (k : ℕ) → drop {A = A} k [] ≡ []
  drop-nil zero = refl
  drop-nil (suc k) = refl

  drop-drop : (m n : ℕ) (xs : List A) → drop m (drop n xs) ≡ drop (m + n) xs
  drop-drop m zero xs = ap (λ k. drop k xs) (omega arith)
  drop-drop m (suc n) [] = drop-nil m ∙ sym (drop-nil (m + suc n))
  drop-drop m (suc n) (x ∷ xs) =
      let e : suc (m + n) ≡ m + suc n = omega arith in
      drop-drop m n xs ∙ ap (λ k. drop k (x ∷ xs)) e

  drop-append : (n : ℕ) (xs ys : List A) → n ≤ length xs → drop n (xs ++ ys) ≡ drop n xs ++ ys
  drop-append zero xs ys h = refl
  drop-append (suc n) [] ys h = absurd (omega arith)
  drop-append (suc n) (x ∷ xs) ys h = drop-append n xs ys (omega arith)

last_four-ends_with :
    (xs suffix : List ℕ) → length suffix ≤ 4 → ends_with (last_four xs) suffix ≡ ends_with xs suffix
unfolding ends_with
last_four-ends_with xs suffix h =
    ap (λ t. same_text t suffix)
      (drop-drop (length (last_four xs) - length suffix) (length xs - 4) xs
        ∙ ap (λ k. drop k xs) (omega (arith, length-drop (length xs - 4) xs)))

-- The window shows a delimiter where the whole text since the last one does.
pub at_delimiter-last_four : (xs : List ℕ) → at_delimiter (last_four xs) ≡ at_delimiter xs
unfolding at_delimiter
at_delimiter-last_four xs =
    ap₂ (λ a b. a || b) (last_four-ends_with xs (10 ∷ 10 ∷ []) (omega arith))
      (last_four-ends_with xs (13 ∷ 10 ∷ 13 ∷ 10 ∷ []) (omega arith))

-- What `slide` does on the window of a text of each length.
slide_full :
    (xs : List ℕ) (b : ℕ) → 4 ≤ length xs → slide (last_four xs) b ≡ last_four (xs ++ b ∷ [])
unfolding slide
slide_full xs b h =
    let kept = length-drop (length xs - 4) xs in
    let longer = length-append xs (b ∷ []) in
    rw (full kept) (
      ap (λ t. t ++ b ∷ []) (drop-drop 1 (length xs - 4) xs)
      ∙ sym (drop-append (1 + (length xs - 4)) xs (b ∷ []) (omega arith))
      ∙ ap (λ k. drop k (xs ++ b ∷ [])) (omega (arith, longer)))
  where
    full : length (last_four xs) ≡ length xs - (length xs - 4) → (length (last_four xs) == 4) ≡ true
    full e = ground arith

slide_short :
    (xs : List ℕ) (b : ℕ) → length xs < 4 → slide (last_four xs) b ≡ last_four (xs ++ b ∷ [])
unfolding slide
slide_short xs b h =
    let kept = length-drop (length xs - 4) xs in
    let longer = length-append xs (b ∷ []) in
    let none_over : length (xs ++ b ∷ []) - 4 ≡ 0 = omega (arith, longer) in
    let whole : length xs - 4 ≡ 0 = omega arith in
    rw (short kept)
      (ap (λ k. drop k xs ++ b ∷ []) whole ∙ ap (λ k. drop k (xs ++ b ∷ [])) (sym none_over))
  where
    short :
        length (last_four xs) ≡ length xs - (length xs - 4) → (length (last_four xs) == 4) ≡ false
    short e = ground arith

pub slide-last_four : (xs : List ℕ) (b : ℕ) → slide (last_four xs) b ≡ last_four (xs ++ b ∷ [])
slide-last_four xs b = elim (dec_lt (length xs) 4) [
  | yes short ↦ slide_short xs b short
  | no full ↦ slide_full xs b (omega arith)
]
