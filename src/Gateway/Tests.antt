-- ===== src/Gateway/Tests.antt =====
-- The rate limits of src/gateway.rs, at a small JSON value.
pub mod Streams
pub mod Requests
pub mod Relays
pub mod Forwards
use orihsus.Prelude.{
  ◌≡◌, ◌++◌, refl, String, false, Option, none, some, [], ◌∷◌, str_eq, if◌then◌else◌, is_whitespace,
  arith,
}
use orihsus.Time.{from_secs}
use orihsus.Pool.Report.{five_hour}
use orihsus.Gateway.RateLimit.{
  usage_limit, codes, lower, strip_prefix, after_phrase, take_while, drop_while, number, parse_u64,
  trim_s, unit_secs, resets_after, parse_resets_in, JsonOps, classify_value, classify_429,
}
use orihsus.Gateway.RateLimit.Cools.{Limits, classify_429_lem}
use orihsus.Gateway.RateLimit.Reads.{checked_secs, parse_resets_in-hours}

-- The parts of the one document that is read below.
pub data Node : Type 0 where
  document error_part metadata null : Node
  text : String → Node

abbrev field_of : Node → String → Node
field_of document name =
    if str_eq name "error" then error_part else if str_eq name "metadata" then metadata else null
field_of error_part name =
    if str_eq name "type"
    then text "GoUsageLimitError"
    else if str_eq name "message"
    then text "Resets in 2 hours."
    else null
field_of metadata name = if str_eq name "limitName" then text "5h" else null
field_of null name = null
field_of (text s) name = null

abbrev text_of : Node → Option String
text_of (text s) = some s
text_of _ = none

abbrev pub small_json : JsonOps Node
small_json = record { read = λ body. some document; field = field_of; as_text = text_of }

classify_429_lem_example :
    (false ≡ false)
    × (value : Node) × (small_json.read (123 ∷ []) ≡ some value)
    × Limits small_json value (usage_limit five_hour (from_secs 7200))
unfolding classify_429 classify_value parse_resets_in after_phrase strip_prefix lower resets_after
    take_while drop_while is_whitespace parse_u64 number trim_s unit_secs
classify_429_lem_example =
    classify_429_lem small_json (123 ∷ []) false five_hour (from_secs 7200) refl

parse_resets_in-hours_example :
    parse_resets_in (codes "Resets in " ++ (49 ∷ 50 ∷ []) ++ codes " hours.")
    ≡ checked_secs (number 0 (49 ∷ 50 ∷ [])) 3600
unfolding number
parse_resets_in-hours_example = parse_resets_in-hours 49 (50 ∷ []) (refl, (refl, tt)) (omega arith)
