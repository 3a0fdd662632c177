-- ===== src/UsageMonitor/Tests.antt =====
-- The theorems on src/usage.rs, at a response with one window at 85 percent and one that is limited.
use orihsus.Prelude.{
  inr, ◌≡◌, refl, true, false, ◌∷◌, ok, err, ℕ, String, Option, none, some, List, [], str_eq,
  if◌then◌else◌,
}
use orihsus.Float.{F64, whole, is_finite, le_f64}
use orihsus.UsageMonitor.{UsageOps, has_limited_window, due_reset, latest_loop, evaluate}
use orihsus.Pool.Entry.Search.{Pointwise}
use orihsus.Pool.History.{run}
use orihsus.Pool.History.Keeps.{Keeps}
use orihsus.Pool.Tests.{two_keys}
use orihsus.UsageMonitor.Poll.{Round, Fetched, poll_once}
use orihsus.UsageMonitor.Cools.{reports, poll_once-Keeps}
use orihsus.UsageMonitor.Latest.{Answers, evaluate-Answers}

-- The parts of the one document that is read below.
pub data Part : Type 0 where
  document rolling_window weekly_window : Part
  text_part : String → Part
  number_part : ℕ → Part

abbrev field_of : Part → String → Option Part
field_of document name =
    if str_eq name "rolling"
    then some rolling_window
    else if str_eq name "weekly"
    then some weekly_window
    else none
field_of rolling_window name =
    if str_eq name "usagePercent"
    then some (number_part 85)
    else if str_eq name "resetsAt"
    then some (text_part "soon")
    else none
field_of weekly_window name =
    if str_eq name "status"
    then some (text_part "rate-limited")
    else if str_eq name "resetsAt"
    then some (text_part "late")
    else none
field_of _ name = none

abbrev text_of : Part → Option String
text_of (text_part s) = some s
text_of _ = none

abbrev number_of : Part → Option F64
number_of (number_part n) = some (whole n)
number_of _ = none

abbrev ops : UsageOps Part
ops = record {
  read = λ body. some document;
  get = field_of;
  as_text = text_of;
  as_f64 = number_of;
  parse_time = λ text. if str_eq text "soon" then some 130 else some 190;
}

evaluate-Answers_example :
    Answers ops document document (whole 80) 100 (evaluate ops [] 100 (whole 80))
evaluate-Answers_example =
    evaluate-Answers ops [] document document (whole 80) 100 refl (inr (refl, refl))

-- Both windows are due, and the key cools until the later reset.
cools_for_90 : evaluate ops [] 100 (whole 80) ≡ some 90
unfolding evaluate due_reset latest_loop has_limited_window le_f64 is_finite
cools_for_90 = refl

abbrev digest : String → List ℕ
digest text = 171 ∷ 205 ∷ []

abbrev plain_time : ℕ → String
plain_time now = "2026-01-01T00:00:00.000Z"

abbrev observed : Round
observed = record {
  pool = two_keys;
  history = some (record { queue = []; capacity = 1; is_open = true; dropped = 0; warned = false });
  snapshots = some [];
}

abbrev answers : List (Fetched String)
answers =
    record { key = record { as_str = "key-a" }; result = ok []; reported_at = 60 }
    ∷ record { key = record { as_str = "key-b" }; result = err "timeout"; reported_at = 60 }
    ∷ record { key = record { as_str = "key-c" }; result = ok []; reported_at = 61 }
    ∷ []

poll_once-Keeps_example :
    ((poll_once ops digest plain_time 100 (whole 80) observed answers).pool
      ≡ run digest two_keys (reports ops digest plain_time 100 (whole 80) answers))
    × Pointwise Keeps two_keys.entries
        (poll_once ops digest plain_time 100 (whole 80) observed answers).pool.entries
poll_once-Keeps_example = poll_once-Keeps ops digest plain_time 100 (whole 80) observed answers
