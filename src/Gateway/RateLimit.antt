-- ===== src/Gateway/RateLimit.antt =====
-- `classify_429` and `parse_resets_in` of src/gateway.rs. A text is the list of its code points; a
-- JSON value is a third party's, and a parameter.
pub mod Cools
pub mod Reads
use Prim.Native.Char.{code}
use orihsus.Prelude.{
  ℕ, zero, suc, ◌+◌, ◌-◌, ◌*◌, ◌^◌, String, Bool, true, false, ◌&&◌, ◌||◌, Option, none, some, List,
  [], ◌∷◌, map, leb, ltb, ◌==◌, str_eq, chars, if◌then◌else◌, is_whitespace,
}
use orihsus.Time.{from_secs}
use orihsus.Pool.Report.{UsageDimension, weekly, monthly, five_hour}

pub data RateLimitKind : Type 0 where
  usage_limit : UsageDimension → ℕ → RateLimitKind
  generic : RateLimitKind

abbrev pub codes : String → List ℕ
codes s = map code (chars s)

-- `to_ascii_lowercase`, `is_ascii_digit` and `is_ascii_alphabetic` of one character; the letters are
-- in lower case where it is asked.
unfoldable pub lower : ℕ → ℕ
lower c = if leb 65 c && leb c 90 then c + 32 else c

abbrev pub is_digit : ℕ → Bool
is_digit c = leb 48 c && leb c 57

abbrev pub is_letter : ℕ → Bool
is_letter c = (leb 65 c && leb c 90) || (leb 97 c && leb c 122)

unfoldable pub strip_prefix : List ℕ → List ℕ → Option (List ℕ)
strip_prefix [] s = some s
strip_prefix (p ∷ ps) [] = none
strip_prefix (p ∷ ps) (c ∷ s) = let rest = strip_prefix ps s in if p == c then rest else none

-- What follows the first place where the phrase stands: `find`, and the slice behind it.
unfoldable pub after_phrase : List ℕ → List ℕ → Option (List ℕ)
unfolding strip_prefix
after_phrase phrase [] = strip_prefix phrase []
after_phrase phrase (c ∷ s) =
    let later = after_phrase phrase s in
    elim (strip_prefix phrase (c ∷ s)) [ none ↦ later | some rest ↦ some rest ]

unfoldable pub take_while : (ℕ → Bool) → List ℕ → List ℕ
take_while p [] = []
take_while p (c ∷ s) = let rest = take_while p s in if p c then c ∷ rest else []

unfoldable pub drop_while : (ℕ → Bool) → List ℕ → List ℕ
drop_while p [] = []
drop_while p (c ∷ s) = let rest = drop_while p s in if p c then rest else c ∷ s

-- The number that digits give, on top of what was read.
unfoldable pub number : ℕ → List ℕ → ℕ
number n [] = n
number n (c ∷ s) = number (n * 10 + (c - 48)) s

abbrev pub u64_limit : ℕ
u64_limit = 2 ^ 64

-- `parse::<u64>` of digits: an error if there is none or the number does not fit.
unfoldable pub parse_u64 : List ℕ → Option ℕ
unfolding number
parse_u64 [] = none
parse_u64 (c ∷ s) = let n = number 0 (c ∷ s) in if ltb n u64_limit then some n else none

abbrev pub checked_mul : ℕ → ℕ → Option ℕ
checked_mul a b = if ltb (a * b) u64_limit then some (a * b) else none

-- `trim_end_matches('s')`.
unfoldable pub trim_s : List ℕ → List ℕ
trim_s [] = []
trim_s (c ∷ s) = elim (trim_s s) [ [] ↦ if c == 115 then [] else c ∷ [] | d ∷ rest ↦ c ∷ d ∷ rest ]

abbrev pub same_text : List ℕ → List ℕ → Bool
same_text [] [] = true
same_text (c ∷ s) (d ∷ t) = c == d && same_text s t
same_text _ _ = false

unfoldable pub unit_secs : List ℕ → Option ℕ
unit_secs unit =
    if same_text unit (codes "second")
    then some 1
    else if same_text unit (codes "minute")
    then some 60
    else if same_text unit (codes "hour")
    then some 3600
    else if same_text unit (codes "day")
    then some 86400
    else none

-- The duration after the phrase, in nanoseconds.
unfoldable pub resets_after : List ℕ → Option ℕ
unfolding take_while drop_while parse_u64 trim_s unit_secs
resets_after phrase_rest =
    let rest = drop_while is_whitespace phrase_rest in
    elim (parse_u64 (take_while is_digit rest)) [
      | none ↦ none
      | some count ↦
          if count == 0
          then none
          else let behind = drop_while is_whitespace (drop_while is_digit rest) in
            elim (unit_secs (trim_s (take_while is_letter behind))) [
              | none ↦ none
              | some factor ↦ elim (checked_mul count factor) [
                | none ↦ none
                | some secs ↦ some (from_secs secs)
              ]
            ]
    ]

unfoldable pub parse_resets_in : List ℕ → Option ℕ
unfolding lower after_phrase resets_after
parse_resets_in message = elim (after_phrase (codes "resets in") (map lower message)) [
  | none ↦ none
  | some rest ↦ resets_after rest
]

-- What the code uses of JSON: reading UTF-8 bytes, a field (null if it is not there), and a text.
pub record JsonOps (J : Type 0) : Type 0 where
  pub read : List ℕ → Option J
  pub field : J → String → J
  pub as_text : J → Option String

abbrev pub dimension_of : Option String → Option UsageDimension
dimension_of none = none
dimension_of (some name) =
    if str_eq name "weekly"
    then some weekly
    else if str_eq name "monthly"
    then some monthly
    else if str_eq name "5h"
    then some five_hour
    else none

abbrev pub default_cooldown : UsageDimension → ℕ
default_cooldown weekly = from_secs (7 * 24 * 3600)
default_cooldown monthly = from_secs (31 * 24 * 3600)
default_cooldown five_hour = from_secs (5 * 3600)

abbrev pub cooldown_of : Option ℕ → UsageDimension → ℕ
cooldown_of (some d) dimension = d
cooldown_of none dimension = default_cooldown dimension

abbrev pub text_or_empty : Option String → String
text_or_empty none = ""
text_or_empty (some s) = s

abbrev pub is_usage_error : Option String → Bool
is_usage_error none = false
is_usage_error (some t) = str_eq t "GoUsageLimitError"

module _ {J : Type 0} (json : JsonOps J) where
  unfoldable pub classify_value : J → RateLimitKind
  unfolding parse_resets_in
  classify_value value =
      let error = json.field value "error" in
      let name = json.as_text (json.field (json.field value "metadata") "limitName") in
      let message = text_or_empty (json.as_text (json.field error "message")) in
      if is_usage_error (json.as_text (json.field error "type"))
      then elim (dimension_of name) [
        | none ↦ generic
        | some dimension ↦
            usage_limit dimension (cooldown_of (parse_resets_in (codes message)) dimension)
      ]
      else generic

  unfoldable pub classify_429 : List ℕ → Bool → RateLimitKind
  unfolding classify_value
  classify_429 body overflowed =
      if overflowed
      then generic
      else elim (json.read body) [ none ↦ generic | some value ↦ classify_value value ]
