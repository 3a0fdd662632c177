-- ===== src/Gateway/Usage.antt =====
-- `extract_usage` and `JsonUsageParser` of src/gateway.rs. JSON is a third party's, and a parameter.
pub mod Counts
use orihsus.Prelude.{
  ℕ, ◌-◌, min, String, Bool, true, false, Option, none, some, List, [], ◌∷◌, ◌++◌, Result, ok, err,
  ◌>>=◌, length, take, leb, if◌then◌else◌,
}

-- What the code uses of JSON: reading the bytes of a document, a field (null if it is not there),
-- and a number that fits 64 bits.
pub record NumberOps (J : Type 0) : Type 0 where
  pub read : List ℕ → Option J
  pub field : J → String → J
  pub as_u64 : J → Option ℕ

pub record RequestUsage : Type 0 where
  pub input_tokens : ℕ
  pub cached_tokens : ℕ
  pub uncached_tokens : ℕ
  pub cache_write_tokens : Option ℕ
  pub output_tokens : ℕ
  pub reasoning_tokens : Option ℕ

-- `Option::or` and `unwrap_or(0)`.
abbrev pub or_else {ℓ} : {A : Type ℓ} → Option A → Option A → Option A
or_else (some x) other = some x
or_else none other = other

abbrev pub or_zero : Option ℕ → ℕ
or_zero (some n) = n
or_zero none = 0

pub record JsonUsageParser : Type 0 where
  pub buf : List ℕ
  pub cap : ℕ
  pub overflowed : Bool

abbrev pub new_json : ℕ → JsonUsageParser
new_json cap = record { buf = []; cap = cap; overflowed = false }

-- `push`; what overflows is forgotten at once.
unfoldable pub push_json : JsonUsageParser → List ℕ → JsonUsageParser
push_json p chunk =
    let remaining = p.cap - length p.buf in
    if p.overflowed
    then p
    else if leb (length chunk) remaining
    then record p { buf = p.buf ++ chunk }
    else record p { buf = []; overflowed = true }

module _ {J : Type 0} (ops : NumberOps J) where
  abbrev number_at : J → String → Option ℕ
  number_at v name = ops.as_u64 (ops.field v name)

  abbrev number_in : J → String → String → Option ℕ
  number_in v part name = ops.as_u64 (ops.field (ops.field v part) name)

  abbrev pub cached_of : J → ℕ
  cached_of usage = or_zero (
      or_else (number_in usage "prompt_tokens_details" "cached_tokens") (
        or_else (number_at usage "prompt_cache_hit_tokens")
          (number_at usage "cache_read_input_tokens")))

  abbrev usage_with : J → ℕ → ℕ → RequestUsage
  usage_with usage input output =
      let cached = min (cached_of usage) input in
      record {
        input_tokens = input;
        cached_tokens = cached;
        uncached_tokens = input - cached;
        cache_write_tokens =
            or_else (number_in usage "prompt_tokens_details" "cache_write_tokens") (
              or_else (number_at usage "cache_write_tokens")
                (number_at usage "cache_creation_input_tokens"));
        output_tokens = output;
        reasoning_tokens =
            or_else (number_in usage "completion_tokens_details" "reasoning_tokens") (
              or_else (number_in usage "output_tokens_details" "reasoning_tokens")
                (number_at usage "reasoning_tokens"));
      }

  abbrev usage_of : J → Option ℕ → Option ℕ → Option RequestUsage
  usage_of usage none output = none
  usage_of usage (some input) none = none
  usage_of usage (some input) (some output) = some (usage_with usage input output)

  abbrev usage_in : Option J → Option RequestUsage
  usage_in none = none
  usage_in (some v) =
      let usage = ops.field v "usage" in
      usage_of usage (or_else (number_at usage "prompt_tokens") (number_at usage "input_tokens"))
        (or_else (number_at usage "completion_tokens") (number_at usage "output_tokens"))

  unfoldable pub extract_usage : List ℕ → Option RequestUsage
  extract_usage body = usage_in (ops.read body)

  unfoldable pub usage_json : JsonUsageParser → Option RequestUsage
  usage_json p = if p.overflowed then none else extract_usage p.buf
