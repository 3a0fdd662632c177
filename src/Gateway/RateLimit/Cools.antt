-- ===== src/Gateway/RateLimit/Cools.antt =====
-- A body that `classify_429` of src/gateway.rs takes for a usage limit says so, and cools the key.
use orihsus.Prelude.{
  ℕ, ◌<◌, ◌≡◌, ◌≢◌, refl, ◌*◌, Bool, true, false, Option, none, some, List, map, Bool-cases,
  Option-cases, inl, inr, arith, ltb, ◌==◌, is_whitespace,
}
use mathlib.Core.Path.{subst}
use orihsus.Time.{from_secs}
use orihsus.Pool.Report.{UsageDimension, weekly, monthly, five_hour}
use orihsus.Gateway.RateLimit.{
  RateLimitKind, usage_limit, generic, codes, lower, after_phrase, take_while, drop_while,
  parse_u64, u64_limit, unit_secs, trim_s, is_digit, is_letter, resets_after, parse_resets_in,
  JsonOps, dimension_of, cooldown_of, text_or_empty, is_usage_error, classify_value, classify_429,
}

-- A duration, if there is one, is a whole and positive number of seconds in 64 bits.
abbrev pub IsWholeSeconds : Option ℕ → Type 0
IsWholeSeconds none = Unit
IsWholeSeconds (some d) = (secs : ℕ) × (0 < secs) × (secs < u64_limit) × (d ≡ from_secs secs)

unit_secs-positive : (unit : List ℕ) {factor : ℕ} → unit_secs unit ≡ some factor → 0 < factor
unfolding unit_secs
unit_secs-positive unit at = ground arith

product_positive : (a b : ℕ) → a ≢ 0 → 0 < b → 0 < a * b
product_positive a b some_a some_b = grind arith

resets_after-IsWholeSeconds : (s : List ℕ) → IsWholeSeconds (resets_after s)
unfolding resets_after
resets_after-IsWholeSeconds s =
    let rest = drop_while is_whitespace s in
    let behind = drop_while is_whitespace (drop_while is_digit rest) in
    elim (Option-cases (parse_u64 (take_while is_digit rest))) [
      | inl no_number ↦ rw (no_number, resets_after) tt
      | inr (count, read) ↦ elim (Bool-cases (count == 0)) [
        | inl zero_count ↦ rw (read, zero_count, resets_after) tt
        | inr some_count ↦ elim (Option-cases (unit_secs (trim_s (take_while is_letter behind)))) [
          | inl no_unit ↦ rw (read, some_count, no_unit, resets_after) tt
          | inr (factor, unit) ↦ elim (Bool-cases (ltb (count * factor) u64_limit)) [
            | inl fits ↦
                rw (read, some_count, unit, fits, resets_after)
                  (
                    count * factor,
                    product_positive count factor (ground arith)
                        (unit_secs-positive (trim_s (take_while is_letter behind)) unit),
                    ground arith,
                    refl,
                  )
            | inr large ↦ rw (read, some_count, unit, large, resets_after) tt
          ]
        ]
      ]
    ]

-- Whatever the message, a reset that is read from it is a whole and positive number of seconds that
-- fits 64 bits.
pub parse_resets_in-IsWholeSeconds : (message : List ℕ) → IsWholeSeconds (parse_resets_in message)
unfolding parse_resets_in
parse_resets_in-IsWholeSeconds message =
    elim (Option-cases (after_phrase (codes "resets in") (map lower message))) [
      | inl nowhere ↦ rw (nowhere, parse_resets_in) tt
      | inr (rest, at) ↦ rw (at, parse_resets_in) (resets_after-IsWholeSeconds rest)
    ]

cooldown_of-positive : (o : Option ℕ) (d : UsageDimension) → IsWholeSeconds o → 0 < cooldown_of o d
cooldown_of-positive none weekly h = omega arith
cooldown_of-positive none monthly h = omega arith
cooldown_of-positive none five_hour h = omega arith
cooldown_of-positive (some n) d (secs, some_secs, fits, same) = omega arith

module _ {J : Type 0} (json : JsonOps J) where
  -- What is known of a value that is classified as a usage limit.
  abbrev pub Limits : J → RateLimitKind → Type 0
  Limits value generic = Unit
  Limits value (usage_limit dimension cooldown) =
      (is_usage_error (json.as_text (json.field (json.field value "error") "type")) ≡ true)
      × (dimension_of (json.as_text (json.field (json.field value "metadata") "limitName"))
          ≡ some dimension)
      × (0 < cooldown)

  classify_value-Limits : (value : J) → Limits value (classify_value json value)
  unfolding classify_value
  classify_value-Limits value =
      let error = json.field value "error" in
      let name = json.as_text (json.field (json.field value "metadata") "limitName") in
      let message = text_or_empty (json.as_text (json.field error "message")) in
      elim (Bool-cases (is_usage_error (json.as_text (json.field error "type")))) [
        | inr other ↦ rw (other, classify_value) tt
        | inl usage ↦ elim (Option-cases (dimension_of name)) [
          | inl unknown ↦ rw (usage, unknown, classify_value) tt
          | inr (dimension, known) ↦
              rw (usage, known, classify_value)
                (
                  usage,
                  known,
                  cooldown_of-positive (parse_resets_in (codes message)) dimension
                      (parse_resets_in-IsWholeSeconds (codes message)),
                )
        ]
      ]

  -- Where the body of a 429 answer is classified as a usage limit, it was read in full, it is JSON
  -- whose error type is `GoUsageLimitError` and whose limit name is that of the dimension, and the
  -- cooldown is positive.
  pub classify_429_lem :
      (body : List ℕ) (overflowed : Bool) (dimension : UsageDimension) (cooldown : ℕ)
      → classify_429 json body overflowed ≡ usage_limit dimension cooldown
      → (overflowed ≡ false)
        × (value : J) × (json.read body ≡ some value)
        × Limits value (usage_limit dimension cooldown)
  unfolding classify_429
  classify_429_lem body true dimension cooldown h = cc
  classify_429_lem body false dimension cooldown h = elim (Option-cases (json.read body)) [
    | inl unread ↦ let wrong = rw unread at h in cc
    | inr (value, got) ↦
        (refl, value, got, subst (Limits value) (rw got at h) (classify_value-Limits value))
  ]
