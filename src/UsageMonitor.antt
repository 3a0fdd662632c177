-- ===== src/UsageMonitor.antt =====
-- `evaluate` of src/usage.rs: whether a usage response makes the pool cool its key, and for how
-- long. JSON and the reading of a time are parameters; a time is a count of nanoseconds.
pub mod Loop
pub mod Due
pub mod Latest
pub mod Poll
pub mod Cools
pub mod Tests
use orihsus.Prelude.{
  ℕ, ◌-◌, max, String, Bool, true, false, not, ◌&&◌, ◌||◌, Option, none, some, List, [], ◌∷◌, any,
  leb, ltb, str_eq, if◌then◌else◌,
}
use orihsus.Float.{F64, whole, is_finite, le_f64}

-- `serde_json::Value` by `from_slice`, `get`, `as_str` and `as_f64`, and the parser of a
-- `DateTime<Utc>`.
pub record UsageOps (J : Type 0) : Type 0 where
  pub read : List ℕ → Option J
  pub get : J → String → Option J
  pub as_text : J → Option String
  pub as_f64 : J → Option F64
  pub parse_time : String → Option ℕ

abbrev pub windows : List String
windows = "rolling" ∷ "weekly" ∷ "monthly" ∷ []

abbrev is_rate_limited : Option String → Bool
is_rate_limited none = false
is_rate_limited (some status) = str_eq status "rate-limited"

-- `percent` is finite, within 0 to 100, and at the threshold or above.
abbrev pub is_over : F64 → Option F64 → Bool
is_over threshold none = false
is_over threshold (some p) =
    (is_finite p && le_f64 (whole 0) p && le_f64 p (whole 100)) && le_f64 threshold p

abbrev ahead_of : ℕ → Option ℕ → Option ℕ
ahead_of now none = none
ahead_of now (some reset) = if leb reset now then none else some reset

-- `Option::map_or` with `max`.
abbrev max_with : Option ℕ → ℕ → ℕ
max_with none reset = reset
max_with (some old) reset = max old reset

abbrev add_reset : Option ℕ → Option ℕ → Option ℕ
add_reset latest none = latest
add_reset latest (some reset) = some (max_with latest reset)

unfoldable pub latest_loop : (String → Option ℕ) → List String → Option ℕ → Option ℕ
latest_loop due [] latest = latest
latest_loop due (name ∷ names) latest = latest_loop due names (add_reset latest (due name))

-- `to_std` refuses a negative duration.
abbrev until_reset : ℕ → Option ℕ → Option ℕ
until_reset now none = none
until_reset now (some reset) = if ltb reset now then none else some (reset - now)

module _ {J : Type 0} (ops : UsageOps J) where
  abbrev text_in : Option J → Option String
  text_in none = none
  text_in (some v) = ops.as_text v

  abbrev number_in : Option J → Option F64
  number_in none = none
  number_in (some v) = ops.as_f64 v

  abbrev time_in : Option String → Option ℕ
  time_in none = none
  time_in (some text) = ops.parse_time text

  abbrev or_else : Option J → Option J → Option J
  or_else none other = other
  or_else (some v) other = some v

  -- `status` of a value that may be missing is "rate-limited".
  abbrev pub status_limited : Option J → Bool
  status_limited none = false
  status_limited (some w) = is_rate_limited (text_in (ops.get w "status"))

  abbrev pub percent_of : J → Option F64
  percent_of w = number_in (or_else (ops.get w "percent") (ops.get w "usagePercent"))

  abbrev pub reset_of : J → Option ℕ
  reset_of w = time_in (text_in (ops.get w "resetsAt"))

  abbrev or_root : J → Option J → J
  or_root root none = root
  or_root root (some usage) = usage

  abbrev pub usage_in : J → J
  usage_in root = or_root root (ops.get root "usage")

  unfoldable pub has_limited_window : J → Bool
  has_limited_window usage = any (λ name. status_limited (ops.get usage name)) windows

  -- The reset of a window that counts: limited, named by a limit of the whole, or at the threshold.
  unfoldable pub due_reset : Bool → Bool → F64 → ℕ → Option J → Option ℕ
  unfolding is_finite le_f64
  due_reset top_limited has_limited threshold now none = none
  due_reset top_limited has_limited threshold now (some window) =
      let limited = status_limited (some window) in
      let top_applies = top_limited && (not has_limited || limited) in
      if not top_applies && not limited && not (is_over threshold (percent_of window))
      then none
      else ahead_of now (reset_of window)

  abbrev pub due_in : J → F64 → ℕ → String → Option ℕ
  due_in root threshold now name =
      due_reset (status_limited (some root)) (has_limited_window (usage_in root)) threshold now
        (ops.get (usage_in root) name)

  abbrev pub evaluate_root : F64 → ℕ → Option J → Option ℕ
  evaluate_root threshold now none = none
  evaluate_root threshold now (some root) =
      until_reset now (latest_loop (due_in root threshold now) windows none)

  unfoldable pub evaluate : List ℕ → ℕ → F64 → Option ℕ
  unfolding due_reset has_limited_window latest_loop
  evaluate body now threshold = evaluate_root threshold now (ops.read body)
