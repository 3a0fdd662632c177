-- ===== src/Gateway/Sse/Events.antt =====
-- The events that `SseUsageParser` of src/gateway.rs finds, against an unbounded reading of the
-- stream.
use mathlib.Core.Path.{ap₂}
use native.Mathlib.Decide.{dec_lt}
use orihsus.Prelude.{
  leb-true, leb-false, lt→ltb, le→ltb-false, ℕ, zero, suc, ◌≤◌, ◌<◌, ◌≡◌, refl, sym, ap, ◌∙◌, Bool,
  true, false, Option, List, [], ◌∷◌, ◌++◌, length, length-append, take, take_all, leb, ltb,
  if◌then◌else◌, Bool-cases, inl, inr, arith,
}
use orihsus.Gateway.Usage.{NumberOps, RequestUsage}
use orihsus.Gateway.Sse.{
  Utf8, SseUsageParser, at_delimiter, slide, consume_event, count, push_byte, push_bytes, keep_byte,
}
use orihsus.Gateway.Sse.Tail.{last_four, at_delimiter-last_four, slide-last_four}

-- The texts between the delimiters, each with its delimiter but for the last byte: `since` is what
-- stands behind the last delimiter.
unfoldable pub events_after : List ℕ → List ℕ → List (List ℕ)
events_after since [] = []
events_after since (b ∷ bs) =
    let ended = events_after [] bs in
    let goes_on = events_after (since ++ b ∷ []) bs in
    if at_delimiter (since ++ b ∷ []) then since ∷ ended else goes_on

-- What stands behind the last delimiter at the end.
unfoldable pub rest_after : List ℕ → List ℕ → List ℕ
rest_after since [] = since
rest_after since (b ∷ bs) =
    let ended = rest_after [] bs in
    let goes_on = rest_after (since ++ b ∷ []) bs in
    if at_delimiter (since ++ b ∷ []) then ended else goes_on

abbrev pub parser : ℕ → List ℕ → List ℕ → Bool → Option RequestUsage × ℕ → SseUsageParser
parser cap buf tail discarding seen = record {
  event_buf = buf;
  event_cap = cap;
  tail = tail;
  discarding = discarding;
  usage = seen.0;
  event_count = seen.1;
}

-- A parser that has read `since` after the last delimiter.
abbrev pub reading : ℕ → List ℕ → Option RequestUsage × ℕ → SseUsageParser
reading cap since seen = parser cap (take cap since) (last_four since) (ltb cap (length since)) seen

abbrev with_tail : SseUsageParser → List ℕ → SseUsageParser
with_tail p tail = record p { tail = tail }

take-nil : (n : ℕ) → take {A = ℕ} n [] ≡ []
take-nil zero = refl
take-nil (suc n) = refl

take-append_lt :
    (n : ℕ) (xs : List ℕ) (b : ℕ) → length xs < n → take n (xs ++ b ∷ []) ≡ take n xs ++ b ∷ []
take-append_lt zero xs b h = absurd (omega arith)
take-append_lt (suc n) [] b h = ap (◌∷◌ b) (take-nil n)
take-append_lt (suc n) (x ∷ xs) b h = ap (◌∷◌ x) (take-append_lt n xs b (omega arith))

take-append_ge : (n : ℕ) (xs : List ℕ) (b : ℕ) → n ≤ length xs → take n (xs ++ b ∷ []) ≡ take n xs
take-append_ge zero xs b h = refl
take-append_ge (suc n) [] b h = absurd (omega arith)
take-append_ge (suc n) (x ∷ xs) b h = ap (◌∷◌ x) (take-append_ge n xs b (omega arith))

pub length-take_ge : (n : ℕ) (xs : List ℕ) → n ≤ length xs → length (take n xs) ≡ n
length-take_ge zero xs h = refl
length-take_ge (suc n) [] h = absurd (omega arith)
length-take_ge (suc n) (x ∷ xs) h = ap suc (length-take_ge n xs (omega arith))

-- Where one more byte leaves a parser that is not at a delimiter.
keep_byte-reading :
    (cap : ℕ) (since : List ℕ) (b : ℕ) (seen : Option RequestUsage × ℕ)
    → keep_byte (reading cap since seen) b
      ≡ parser cap
          (take cap (since ++ b ∷ []))
          (last_four since)
          (ltb cap (length (since ++ b ∷ [])))
          seen
keep_byte-reading cap since b seen =
    let longer = length-append since (b ∷ []) in
    elim (dec_lt (length since) cap) [
      | yes short ↦
          rw
            (
              le→ltb-false cap (length since) (omega arith),
              le→ltb-false cap (length (since ++ b ∷ [])) (omega arith),
              take-append_lt cap since b short,
              take_all cap since (omega arith),
              lt→ltb (length since) cap short,
            )
            refl
      | no long ↦ elim (dec_lt cap (length since)) [
        | yes over ↦
            rw
              (
                lt→ltb cap (length since) over,
                lt→ltb cap (length (since ++ b ∷ [])) (omega arith),
                take-append_ge cap since b (omega arith),
              )
              refl
        | no exact ↦
            rw
              (
                le→ltb-false cap (length since) (omega arith),
                lt→ltb cap (length (since ++ b ∷ [])) (omega arith),
                take-append_ge cap since b (omega arith),
                le→ltb-false (length (take cap since)) cap (full (omega arith)),
              )
              refl
      ]
    ]
  where
    full : cap ≤ length since → cap ≤ length (take cap since)
    full h = omega (arith, length-take_ge cap since h)

pub reading-nil :
    (cap : ℕ) (seen : Option RequestUsage × ℕ) → reading cap [] seen ≡ parser cap [] [] false seen
reading-nil cap seen = ap₂ (λ buf d. parser cap buf [] d seen) (take-nil cap) (ground arith)

module _ {J : Type 0} (ops : NumberOps J) (utf8 : Utf8) where
  -- An event longer than the cap is passed over.
  abbrev pub consume_one : ℕ → List ℕ → Option RequestUsage × ℕ → Option RequestUsage × ℕ
  consume_one cap event seen =
      let (usage, counts) = consume_event ops utf8 event seen.0 in
      if leb (length event) cap then (usage, count seen.1 counts) else seen

  unfoldable pub consume_all : ℕ → List (List ℕ) → Option RequestUsage × ℕ → Option RequestUsage × ℕ
  consume_all cap [] seen = seen
  consume_all cap (event ∷ events) seen = consume_all cap events (consume_one cap event seen)

  push_byte-delimiter :
      (cap : ℕ) (since : List ℕ) (b : ℕ) (seen : Option RequestUsage × ℕ)
      → at_delimiter (since ++ b ∷ []) ≡ true
      → push_byte ops utf8 (reading cap since seen) b ≡ reading cap [] (consume_one cap since seen)
  unfolding push_byte
  push_byte-delimiter cap since b seen h =
      rw (ap at_delimiter (slide-last_four since b) ∙ at_delimiter-last_four (since ++ b ∷ []) ∙ h)
        (elim (dec_lt cap (length since)) [
          | yes over ↦
              rw (lt→ltb cap (length since) over, leb-false (length since) cap over)
                (sym (reading-nil cap seen))
          | no fits ↦
              rw
                (
                  le→ltb-false cap (length since) (omega arith),
                  leb-true (length since) cap (omega arith),
                  take_all cap since (omega arith),
                )
                (sym (reading-nil cap _))
        ])

  push_byte-inside :
      (cap : ℕ) (since : List ℕ) (b : ℕ) (seen : Option RequestUsage × ℕ)
      → at_delimiter (since ++ b ∷ []) ≡ false
      → push_byte ops utf8 (reading cap since seen) b ≡ reading cap (since ++ b ∷ []) seen
  unfolding push_byte
  push_byte-inside cap since b seen h =
      rw (ap at_delimiter (slide-last_four since b) ∙ at_delimiter-last_four (since ++ b ∷ []) ∙ h)
        (ap (λ p. with_tail p (slide (last_four since) b)) (keep_byte-reading cap since b seen)
          ∙ ap
              (λ t.
                parser cap (take cap (since ++ b ∷ [])) t (ltb cap (length (since ++ b ∷ []))) seen)
              (slide-last_four since b))

  pub push_bytes-reading :
      (cap : ℕ) (since : List ℕ) (bs : List ℕ) (seen : Option RequestUsage × ℕ)
      → push_bytes ops utf8 (reading cap since seen) bs
        ≡ reading cap (rest_after since bs) (consume_all cap (events_after since bs) seen)
  unfolding push_bytes rest_after events_after consume_all
  push_bytes-reading cap since [] seen = refl
  push_bytes-reading cap since (b ∷ bs) seen = elim (Bool-cases (at_delimiter (since ++ b ∷ []))) [
    | inl ended ↦
        ap (λ p. push_bytes ops utf8 p bs) (push_byte-delimiter cap since b seen ended)
        ∙ push_bytes-reading cap [] bs _
        ∙ rw ended refl
    | inr inside ↦
        ap (λ p. push_bytes ops utf8 p bs) (push_byte-inside cap since b seen inside)
        ∙ push_bytes-reading cap (since ++ b ∷ []) bs seen
        ∙ rw inside refl
  ]
