-- ===== src/Gateway/Sse.antt =====
-- `SseUsageParser` of src/gateway.rs: the events of a stream, found a byte at a time. A byte and a
-- character are numbers; the conversion between bytes and text is a parameter.
pub mod Chunks
pub mod Events
pub mod Tail
use orihsus.Prelude.{
  ℕ, ◌+◌, ◌-◌, ◌^◌, min, Bool, true, false, not, ◌&&◌, ◌||◌, Option, none, some, List, [], ◌∷◌,
  ◌++◌, length, drop, leb, ltb, ◌==◌, if◌then◌else◌, is_whitespace, is_some_and,
}
use orihsus.Gateway.RateLimit.{codes, strip_prefix, drop_while, same_text}
use orihsus.Gateway.Usage.{NumberOps, RequestUsage, or_else, extract_usage}

-- `String::from_utf8_lossy` and `str::as_bytes`.
pub record Utf8 : Type 0 where
  pub decode : List ℕ → List ℕ
  pub encode : List ℕ → List ℕ

pub record SseUsageParser : Type 0 where
  pub event_buf : List ℕ
  pub event_cap : ℕ
  pub tail : List ℕ
  pub discarding : Bool
  pub usage : Option RequestUsage
  pub event_count : ℕ

abbrev pub new_sse : ℕ → SseUsageParser
new_sse event_cap = record {
  event_buf = [];
  event_cap = event_cap;
  tail = [];
  discarding = false;
  usage = none;
  event_count = 0;
}

unfoldable pub ends_with : List ℕ → List ℕ → Bool
ends_with text suffix = same_text (drop (length text - length suffix) text) suffix

-- `\n\n` or `\r\n\r\n`.
unfoldable pub at_delimiter : List ℕ → Bool
unfolding ends_with
at_delimiter tail = ends_with tail (10 ∷ 10 ∷ []) || ends_with tail (13 ∷ 10 ∷ 13 ∷ 10 ∷ [])

-- The window of the last four bytes.
unfoldable pub slide : List ℕ → ℕ → List ℕ
slide tail b = if length tail == 4 then drop 1 tail ++ b ∷ [] else tail ++ b ∷ []

-- `str::lines`: the pieces that end at a line feed, each without its `\n` or `\r\n`.
abbrev put_before : ℕ → List (List ℕ) → List (List ℕ)
put_before c [] = (c ∷ []) ∷ []
put_before c (l ∷ ls) = (c ∷ l) ∷ ls

unfoldable pub split_inclusive : List ℕ → List (List ℕ)
split_inclusive [] = []
split_inclusive (c ∷ s) =
    let rest = split_inclusive s in if c == 10 then (c ∷ []) ∷ rest else put_before c rest

unfoldable pub without_end : List ℕ → List ℕ
without_end [] = []
without_end (c ∷ s) =
    let rest = without_end s in
    if same_text (c ∷ s) (10 ∷ []) || same_text (c ∷ s) (13 ∷ 10 ∷ []) then [] else c ∷ rest

-- `str::trim` at its end.
unfoldable pub trim_end : List ℕ → List ℕ
trim_end [] = []
trim_end (c ∷ s) = elim (trim_end s) [
  | [] ↦ if is_whitespace c then [] else c ∷ []
  | d ∷ rest ↦ c ∷ d ∷ rest
]

abbrev keep_data : Option (List ℕ) → List (List ℕ) → List (List ℕ)
keep_data none rest = rest
keep_data (some value) rest = trim_end (drop_while is_whitespace value) ∷ rest

-- The values of the `data:` lines, trimmed.
unfoldable pub data_of : List (List ℕ) → List (List ℕ)
unfolding strip_prefix drop_while trim_end without_end
data_of [] = []
data_of (l ∷ ls) = keep_data (strip_prefix (codes "data:") (without_end l)) (data_of ls)

-- `join("\n")`.
unfoldable pub join_lines : List (List ℕ) → List ℕ
join_lines [] = []
join_lines (l ∷ []) = l
join_lines (l ∷ m ∷ ls) = l ++ 10 ∷ join_lines (m ∷ ls)

-- An event counts up to the largest 64-bit number.
abbrev pub count : ℕ → Bool → ℕ
count n true = min (n + 1) (2 ^ 64 - 1)
count n false = n

abbrev pub finish_event : SseUsageParser → Option RequestUsage × Bool → SseUsageParser
finish_event p (usage, counts) = record p {
  event_buf = [];
  tail = [];
  discarding = false;
  usage = usage;
  event_count = count p.event_count counts;
}

abbrev pub keep_byte : SseUsageParser → ℕ → SseUsageParser
keep_byte p b =
    if p.discarding
    then p
    else if ltb (length p.event_buf) p.event_cap
    then record p { event_buf = p.event_buf ++ b ∷ [] }
    else record p { discarding = true }

module _ {J : Type 0} (ops : NumberOps J) (utf8 : Utf8) where
  abbrev payload_usage : List ℕ → Option RequestUsage → Option RequestUsage
  payload_usage payload before = elim (ops.read (utf8.encode payload)) [
    | none ↦ before
    | some v ↦ or_else (extract_usage ops (utf8.encode payload)) before
  ]

  abbrev consume_data : List (List ℕ) → Option RequestUsage → Option RequestUsage × Bool
  consume_data [] before = (before, false)
  consume_data (l ∷ ls) before =
      let payload = join_lines (l ∷ ls) in
      if same_text payload (codes "[DONE]")
      then (before, true)
      else (payload_usage payload before, true)

  -- `consume_event`: the usage after it, and whether the event counts.
  unfoldable pub consume_event : List ℕ → Option RequestUsage → Option RequestUsage × Bool
  unfolding split_inclusive data_of join_lines
  consume_event event before = consume_data (data_of (split_inclusive (utf8.decode event))) before

  -- One turn of the loop of `push`.
  unfoldable pub push_byte : SseUsageParser → ℕ → SseUsageParser
  unfolding slide at_delimiter consume_event
  push_byte p b =
      let tail = slide p.tail b in
      if at_delimiter tail
      then finish_event p
          (if p.discarding then (p.usage, false) else consume_event p.event_buf p.usage)
      else record (keep_byte p b) { tail = tail }

  unfoldable pub push_bytes : SseUsageParser → List ℕ → SseUsageParser
  unfolding push_byte
  push_bytes p [] = p
  push_bytes p (b ∷ bs) = push_bytes (push_byte p b) bs

  -- `push`, with the number of events that ended in the chunk.
  unfoldable pub push : SseUsageParser → List ℕ → SseUsageParser × ℕ
  unfolding push_bytes
  push p chunk = let after = push_bytes p chunk in (after, after.event_count - p.event_count)
