-- ===== src/Gateway/Usage/Counts.antt =====
-- What `extract_usage` and `JsonUsageParser` of src/gateway.rs count.
use mathlib.Core.List.{append-nil, append_assoc}
use orihsus.Prelude.{
  leb-true, ℕ, ◌+◌, ◌-◌, ◌≤◌, ◌<◌, ◌≡◌, refl, sym, ap, ◌∙◌, true, false, Option, none, some, List,
  [], ◌∷◌, ◌++◌, length, length-append, leb, if◌then◌else◌, Bool-cases, inl, inr, arith,
}
use orihsus.Gateway.Usage.{
  NumberOps, RequestUsage, JsonUsageParser, new_json, push_json, extract_usage, usage_json,
  usage_in, usage_of,
}

-- A usage whose input is what was cached and what was not.
pub record AddsUp (u : RequestUsage) : Type 0 where
  pub cached_within : u.cached_tokens ≤ u.input_tokens
  pub sum : u.cached_tokens + u.uncached_tokens ≡ u.input_tokens

abbrev pub EachAddsUp : Option RequestUsage → Type 0
EachAddsUp none = Unit
EachAddsUp (some u) = AddsUp u

abbrev pub concat : List (List ℕ) → List ℕ
concat [] = []
concat (chunk ∷ chunks) = chunk ++ concat chunks

pub concat-push :
    (chunks : List (List ℕ)) (bytes : List ℕ)
    → concat (chunks ++ bytes ∷ []) ≡ concat chunks ++ bytes
concat-push [] bytes = append-nil bytes
concat-push (c ∷ cs) bytes =
    ap (λ t. c ++ t) (concat-push cs bytes) ∙ sym (append_assoc c (concat cs) bytes)

-- The parser fed with the chunks of a body.
unfoldable pub push_chunks : JsonUsageParser → List (List ℕ) → JsonUsageParser
push_chunks p [] = p
push_chunks p (chunk ∷ chunks) = push_chunks (push_json p chunk) chunks

-- The parser with these bytes, and the parser that has given up.
abbrev holding : List ℕ → ℕ → JsonUsageParser
holding buf cap = record { buf = buf; cap = cap; overflowed = false }

abbrev given_up : ℕ → JsonUsageParser
given_up cap = record { buf = []; cap = cap; overflowed = true }

push_chunks-given_up :
    (cap : ℕ) (chunks : List (List ℕ)) → push_chunks (given_up cap) chunks ≡ given_up cap
unfolding push_chunks push_json
push_chunks-given_up cap [] = refl
push_chunks-given_up cap (chunk ∷ chunks) = push_chunks-given_up cap chunks

push_json-room :
    (buf : List ℕ) (cap : ℕ) (chunk : List ℕ)
    → leb (length chunk) (cap - length buf) ≡ true
    → push_json (holding buf cap) chunk ≡ holding (buf ++ chunk) cap
unfolding push_json
push_json-room buf cap chunk h = rw h refl

push_json-over :
    (buf : List ℕ) (cap : ℕ) (chunk : List ℕ)
    → leb (length chunk) (cap - length buf) ≡ false
    → push_json (holding buf cap) chunk ≡ given_up cap
unfolding push_json
push_json-over buf cap chunk h = rw h refl

module _ {J : Type 0} (ops : NumberOps J) where
  usage_of-EachAddsUp :
      (usage : J) (input output : Option ℕ) → EachAddsUp (usage_of ops usage input output)
  usage_of-EachAddsUp usage none output = tt
  usage_of-EachAddsUp usage (some input) none = tt
  usage_of-EachAddsUp usage (some input) (some output) = record {
    cached_within = omega arith;
    sum = omega arith;
  }

  usage_in-EachAddsUp : (v : Option J) → EachAddsUp (usage_in ops v)
  usage_in-EachAddsUp none = tt
  usage_in-EachAddsUp (some v) = usage_of-EachAddsUp _ _ _

  -- In whatever usage is read from a body, the cached tokens are at most the input tokens, and the
  -- input tokens are the cached ones and the others, whatever numbers the body holds.
  pub extract_usage-EachAddsUp : (body : List ℕ) → EachAddsUp (extract_usage ops body)
  unfolding extract_usage
  extract_usage-EachAddsUp body = usage_in-EachAddsUp (ops.read body)

  push_chunks-usage :
      (buf : List ℕ) (cap : ℕ) (chunks : List (List ℕ))
      → length buf ≤ cap
      → usage_json ops (push_chunks (holding buf cap) chunks) ≡ (
          if leb (length (buf ++ concat chunks)) cap
          then extract_usage ops (buf ++ concat chunks)
          else none)
  unfolding push_chunks usage_json
  push_chunks-usage buf cap [] fits = rw (append-nil buf, leb-true (length buf) cap fits) refl
  push_chunks-usage buf cap (chunk ∷ chunks) fits =
      elim (Bool-cases (leb (length chunk) (cap - length buf))) [
        | inl room ↦
            ap (λ q. usage_json ops (push_chunks q chunks)) (push_json-room buf cap chunk room)
            ∙ rw (← append_assoc buf chunk (concat chunks))
                (push_chunks-usage (buf ++ chunk) cap chunks (fits_yet (ground arith)))
        | inr too_long ↦
            ap (λ q. usage_json ops (push_chunks q chunks)) (push_json-over buf cap chunk too_long)
            ∙ ap (usage_json ops) (push_chunks-given_up cap chunks)
            ∙ rw (over (ground arith)) refl
      ]
    where
      fits_yet : length chunk ≤ cap - length buf → length (buf ++ chunk) ≤ cap
      fits_yet h = omega (arith, length-append buf chunk)

      over :
          cap - length buf < length chunk
          → leb (length (buf ++ (chunk ++ concat chunks))) cap ≡ false
      over h =
          let e = length-append buf (chunk ++ concat chunks) in
          let e' = length-append chunk (concat chunks) in ground (arith, e, e', h, fits)

  -- However a body is cut into chunks, the usage is that of the whole body if the body fits the cap,
  -- and none if it does not.
  pub usage_json_lem :
      (cap : ℕ) (chunks : List (List ℕ))
      → usage_json ops (push_chunks (new_json cap) chunks)
        ≡ (if leb (length (concat chunks)) cap then extract_usage ops (concat chunks) else none)
  usage_json_lem cap chunks = push_chunks-usage [] cap chunks (omega arith)
