-- ===== src/Gateway/Sse/Chunks.antt =====
-- `SseUsageParser` of src/gateway.rs fed with the chunks of a stream.
use mathlib.Core.Path.{subst}
use native.Mathlib.Decide.{dec_lt}
use orihsus.Prelude.{
  ℕ, ◌+◌, ◌-◌, ◌^◌, ◌≤◌, ◌≡◌, refl, sym, ap, ◌∙◌, Bool, true, false, Option, none, List, [], ◌∷◌,
  ◌++◌, length, take, take_all, leb, Bool-cases, inl, inr, arith,
}
use orihsus.Gateway.Usage.{NumberOps, RequestUsage}
use orihsus.Gateway.Usage.Counts.{concat}
use orihsus.Gateway.Sse.{Utf8, SseUsageParser, new_sse, count, push_bytes, push}
use orihsus.Gateway.Sse.Events.{
  events_after, rest_after, consume_one, consume_all, reading, reading-nil, push_bytes-reading,
  length-take_ge,
}

module _ {J : Type 0} (ops : NumberOps J) (utf8 : Utf8) where
  -- The parser after the chunks, and the sum of what the calls of `push` return.
  unfoldable pub push_all : SseUsageParser → List (List ℕ) → SseUsageParser × ℕ
  push_all p [] = (p, 0)
  push_all p (chunk ∷ chunks) =
      let (after, events) = push ops utf8 p chunk in
      let (last, more) = push_all after chunks in (last, events + more)

  push_bytes-append :
      (xs ys : List ℕ) (p : SseUsageParser)
      → push_bytes ops utf8 p (xs ++ ys) ≡ push_bytes ops utf8 (push_bytes ops utf8 p xs) ys
  unfolding push_bytes
  push_bytes-append [] ys p = refl
  push_bytes-append (x ∷ xs) ys p = push_bytes-append xs ys _

  push_all-concat :
      (p : SseUsageParser) (chunks : List (List ℕ))
      → (push_all p chunks).0 ≡ push_bytes ops utf8 p (concat chunks)
  unfolding push_all push push_bytes
  push_all-concat p [] = refl
  push_all-concat p (chunk ∷ chunks) =
      push_all-concat (push_bytes ops utf8 p chunk) chunks
      ∙ sym (push_bytes-append chunk (concat chunks) p)

  -- A count that is a 64-bit number stays one, and never falls.
  count-le :
      (n : ℕ) (counts : Bool)
      → n ≤ 2 ^ 64 - 1
      → (n ≤ count n counts) × (count n counts ≤ 2 ^ 64 - 1)
  count-le n true h = (omega arith, omega arith)
  count-le n false h = (omega arith, h)

  consume_one-le :
      (cap : ℕ) (event : List ℕ) (seen : Option RequestUsage × ℕ)
      → seen.1 ≤ 2 ^ 64 - 1
      → (seen.1 ≤ (consume_one ops utf8 cap event seen).1)
        × ((consume_one ops utf8 cap event seen).1 ≤ 2 ^ 64 - 1)
  consume_one-le cap event seen h = elim (Bool-cases (leb (length event) cap)) [
    | inl fits ↦ rw fits (count-le seen.1 _ h)
    | inr too_long ↦ rw too_long (omega arith, h)
  ]

  consume_all-le :
      (cap : ℕ) (events : List (List ℕ)) (seen : Option RequestUsage × ℕ)
      → seen.1 ≤ 2 ^ 64 - 1
      → (seen.1 ≤ (consume_all ops utf8 cap events seen).1)
        × ((consume_all ops utf8 cap events seen).1 ≤ 2 ^ 64 - 1)
  unfolding consume_all
  consume_all-le cap [] seen h = (omega arith, h)
  consume_all-le cap (event ∷ events) seen h =
      let first = consume_one-le cap event seen h in
      let later = consume_all-le cap events (consume_one ops utf8 cap event seen) first.1 in
      (omega (arith, first.0, later.0), later.1)

  -- What `push` returned adds up to the rise of the counter.
  push_all-sum :
      (cap : ℕ) (since : List ℕ) (seen : Option RequestUsage × ℕ) (chunks : List (List ℕ))
      → seen.1 ≤ 2 ^ 64 - 1
      → seen.1 + (push_all (reading cap since seen) chunks).1
        ≡ (push_all (reading cap since seen) chunks).0.event_count
  unfolding push_all push
  push_all-sum cap since seen [] h = omega arith
  push_all-sum cap since seen (chunk ∷ chunks) h =
      let read = push_bytes-reading ops utf8 cap since chunk seen in
      let bounds = consume_all-le cap (events_after since chunk) seen h in
      let seen' = consume_all ops utf8 cap (events_after since chunk) seen in
      let later = push_all-sum cap (rest_after since chunk) seen' chunks bounds.1 in
      rw read (omega (arith, later, bounds.0))

  length-take_le : (n : ℕ) (xs : List ℕ) → length (take n xs) ≤ n
  length-take_le n xs = elim (dec_lt (length xs) n) [
    | yes short ↦ rw (take_all n xs (omega arith)) (omega arith)
    | no long ↦ omega (arith, length-take_ge n xs (omega arith))
  ]

  -- However a stream is cut into chunks, the parser ends with the usage and the count that reading
  -- the whole stream gives, delimiter by delimiter with no bound on what is remembered, each text
  -- longer than the cap passed over; the calls of `push` return that count in all; and the parser
  -- never holds more bytes of an event than the cap.
  pub push_all-events :
      (cap : ℕ) (chunks : List (List ℕ))
      → let (p, events) = push_all (new_sse cap) chunks in
        let seen = consume_all ops utf8 cap (events_after [] (concat chunks)) (none, 0) in
        (p.usage ≡ seen.0)
        × (p.event_count ≡ seen.1)
        × (events ≡ seen.1)
        × (length p.event_buf ≤ cap)
  push_all-events cap chunks =
      let bytes = concat chunks in
      let start = reading-nil cap (none, 0) in
      let reads =
        push_all-concat (new_sse cap) chunks
        ∙ ap (λ p. push_bytes ops utf8 p bytes) (sym start)
        ∙ push_bytes-reading ops utf8 cap [] bytes (none, 0) in
      let counted = ap (λ p. p.event_count) reads in
      let sum =
        subst (λ p. 0 + (push_all p chunks).1 ≡ (push_all p chunks).0.event_count) start
          (push_all-sum cap [] (none, 0) chunks (omega arith)) in
      (
        ap (λ p. p.usage) reads,
        counted,
        omega (arith, sum, counted),
        subst (λ p. length p.event_buf ≤ cap) (sym reads)
            (length-take_le cap (rest_after [] bytes)),
      )
