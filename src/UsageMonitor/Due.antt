-- ===== src/UsageMonitor/Due.antt =====
-- When a window of a usage response counts in src/usage.rs, read off the document.
use mathlib.Core.Bool.{false≢true}
use mathlib.Core.Path.{sym, ap}
use mathlib.Core.Option
use text.Mathlib.TextEquality.{eq_iff}
use orihsus.Prelude.{
  ◌≡◌, refl, ◌∙◌, ◌⊎◌, inl, inr, ℕ, ◌<◌, String, Bool, true, false, not, ◌&&◌, ◌||◌, Option, none,
  some, leb-false, leb-true, if◌then◌else◌, All, arith, Bool-cases, Option-cases,
}
use orihsus.Float.{F64, whole, is_finite, le_f64}
use orihsus.UsageMonitor.{
  UsageOps, windows, is_over, is_rate_limited, text_in, number_in, time_in, or_else, ahead_of,
  status_limited, percent_of, reset_of, usage_in, has_limited_window, due_reset, due_in,
}
use orihsus.UsageMonitor.Loop.{leb-cases}

ahead_of-some :
    (now : ℕ) (o : Option ℕ) (reset : ℕ)
    → ahead_of now o ≡ some reset
    → (o ≡ some reset) × (now < reset)
ahead_of-some now none reset ahead = cc
ahead_of-some now (some r) reset ahead = elim (leb-cases r now) [
  | inl past ↦ ground (arith, leb-true r now past)
  | inr future ↦ let same : r ≡ reset = ground arith in (ap some same, omega (arith, same))
]

unless_skipped :
    (top has limited over : Bool) (o : Option ℕ) (reset : ℕ)
    → (if not (top && (not has || limited)) && not limited && not over then none else o)
      ≡ some reset
    → ((limited ≡ true) ⊎ ((top ≡ true) × (has ≡ false)) ⊎ (over ≡ true)) × (o ≡ some reset)
unless_skipped top has limited over o reset due = ground arith

not_skipped :
    (top has limited over : Bool) (o : Option ℕ)
    → (limited ≡ true) ⊎ ((top ≡ true) × (has ≡ false)) ⊎ (over ≡ true)
    → (if not (top && (not has || limited)) && not limited && not over then none else o) ≡ o
not_skipped top has limited over o counts = ground arith

-- A percentage that is finite, within 0 to 100, and at the threshold or above.
abbrev pub Reaches : F64 → F64 → Type 0
Reaches threshold p =
    (is_finite p ≡ true)
    × (le_f64 (whole 0) p ≡ true)
    × (le_f64 p (whole 100) ≡ true)
    × (le_f64 threshold p ≡ true)

over-Reaches :
    (threshold : F64) (o : Option F64)
    → is_over threshold o ≡ true
    → (p : F64) × (o ≡ some p) × Reaches threshold p
over-Reaches threshold none over = cc
over-Reaches threshold (some p) over =
    (p, refl, (ground arith, ground arith, ground arith, ground arith))

reached-is_over : (threshold p : F64) → Reaches threshold p → is_over threshold (some p) ≡ true
reached-is_over threshold p (a, b, c, d) = rw (a, b, c, d) refl

limited_text : (o : Option String) → is_rate_limited o ≡ true → o ≡ some "rate-limited"
limited_text none limited = cc
limited_text (some status) limited = ap some ((eq_iff status "rate-limited").0 limited)

module _ {J : Type 0} (ops : UsageOps J) where
  -- The part has a status, and it is "rate-limited".
  abbrev pub HasLimit : J → Type 0
  HasLimit w = (v : J) × (ops.get w "status" ≡ some v) × (ops.as_text v ≡ some "rate-limited")

  -- The number under "percent", or under "usagePercent" where that is missing.
  abbrev pub HasPercent : J → F64 → Type 0
  HasPercent w p =
      (v : J) × ((ops.get w "percent" ≡ some v)
        ⊎ ((ops.get w "percent" ≡ none) × (ops.get w "usagePercent" ≡ some v)))
      × (ops.as_f64 v ≡ some p)

  abbrev pub ResetsAt : J → ℕ → Type 0
  ResetsAt w reset =
      (v : J) × (text : String) × (ops.get w "resetsAt" ≡ some v)
      × (ops.as_text v ≡ some text)
      × (ops.parse_time text ≡ some reset)

  -- The object under "usage", or the document itself.
  abbrev pub IsUsage : J → J → Type 0
  IsUsage root usage =
      (ops.get root "usage" ≡ some usage) ⊎ ((ops.get root "usage" ≡ none) × (usage ≡ root))

  abbrev pub LimitedAt : J → String → Type 0
  LimitedAt usage name = (w : J) × (ops.get usage name ≡ some w) × HasLimit w

  -- The window is limited, or the whole is and no window is, or its usage is at the threshold.
  abbrev pub Qualifies : J → J → F64 → J → Type 0
  Qualifies root usage threshold window =
      HasLimit window
      ⊎ (HasLimit root × All (λ n. ¬ LimitedAt usage n) windows)
      ⊎ ((p : F64) × HasPercent window p × Reaches threshold p)

  -- The window of that name counts, and resets at an instant ahead.
  abbrev pub DueUntil : J → J → F64 → ℕ → String → ℕ → Type 0
  DueUntil root usage threshold now name reset =
      (window : J) × (ops.get usage name ≡ some window)
      × Qualifies root usage threshold window
      × ResetsAt window reset
      × (now < reset)

  limited_part :
      (o : Option J)
      → is_rate_limited (text_in ops o) ≡ true
      → (v : J) × (o ≡ some v) × (ops.as_text v ≡ some "rate-limited")
  limited_part none limited = cc
  limited_part (some v) limited = (v, refl, limited_text (ops.as_text v) limited)

  limited-HasLimit : (w : J) → status_limited ops (some w) ≡ true → HasLimit w
  limited-HasLimit w limited = limited_part (ops.get w "status") limited

  HasLimit-limited : (w : J) → HasLimit w → status_limited ops (some w) ≡ true
  HasLimit-limited w (v, found, text) = rw (found, text) refl

  percent_part :
      (a b : Option J) (p : F64)
      → number_in ops (or_else ops a b) ≡ some p
      → (v : J) × ((a ≡ some v) ⊎ ((a ≡ none) × (b ≡ some v))) × (ops.as_f64 v ≡ some p)
  percent_part (some v) b p found = (v, inl refl, found)
  percent_part none (some v) p found = (v, inr (refl, refl), found)
  percent_part none none p found = cc

  HasPercent-of : (w : J) (p : F64) → HasPercent w p → percent_of ops w ≡ some p
  HasPercent-of w p (v, inl here, number) = rw (here, number) refl
  HasPercent-of w p (v, inr (missing, there), number) = rw (missing, there, number) refl

  reset_part :
      (o : Option J) (reset : ℕ)
      → time_in ops (text_in ops o) ≡ some reset
      → (v : J) × (text : String) × (o ≡ some v)
        × (ops.as_text v ≡ some text)
        × (ops.parse_time text ≡ some reset)
  reset_part none reset found = cc
  reset_part (some v) reset found = elim (Option-cases (ops.as_text v)) [
    | inl no_text ↦ absurd (Option.none-ne-some _ (rw no_text at found))
    | inr (text, is) ↦ (v, text, refl, is, rw is at found)
  ]

  ResetsAt-of : (w : J) (reset : ℕ) → ResetsAt w reset → reset_of ops w ≡ some reset
  ResetsAt-of w reset (v, text, found, is, time) = rw (found, is, time) refl

  pub usage-is : (root usage : J) → IsUsage root usage → usage_in ops root ≡ usage
  usage-is root usage (inl found) = rw found refl
  usage-is root usage (inr (missing, same)) = rw missing (sym same)

  window-HasLimit :
      (o : Option J) → status_limited ops o ≡ true → (w : J) × (o ≡ some w) × HasLimit w
  window-HasLimit none limited = cc
  window-HasLimit (some w) limited = (w, refl, limited-HasLimit w limited)

  LimitedAt-limited :
      (usage : J) (n : String) → LimitedAt usage n → status_limited ops (ops.get usage n) ≡ true
  LimitedAt-limited usage n (w, found, limited) = rw found (HasLimit-limited w limited)

  unlimited_at :
      (usage : J) (n : String) → status_limited ops (ops.get usage n) ≡ false → ¬ LimitedAt usage n
  unlimited_at usage n off at = false≢true (sym off ∙ LimitedAt-limited usage n at)

  unlimited-of :
      (usage : J) (n : String) → ¬ LimitedAt usage n → status_limited ops (ops.get usage n) ≡ false
  unlimited-of usage n never = elim (Bool-cases (status_limited ops (ops.get usage n))) [
    | inl on ↦ absurd (never (window-HasLimit (ops.get usage n) on))
    | inr off ↦ off
  ]

  no_window :
      (usage : J) → has_limited_window ops usage ≡ false → All (λ n. ¬ LimitedAt usage n) windows
  unfolding has_limited_window
  no_window usage none_is = (
    unlimited_at usage "rolling" (ground arith),
    (unlimited_at usage "weekly" (ground arith), (unlimited_at usage "monthly" (ground arith), tt)),
  )

  no_window-of :
      (usage : J) → All (λ n. ¬ LimitedAt usage n) windows → has_limited_window ops usage ≡ false
  unfolding has_limited_window
  no_window-of usage (rolling, (weekly, (monthly, _))) =
      rw
        (
          unlimited-of usage "rolling" rolling,
          unlimited-of usage "weekly" weekly,
          unlimited-of usage "monthly" monthly,
        )
        refl

  counts-Qualifies :
      (root window : J) (threshold : F64)
      → (status_limited ops (some window) ≡ true)
        ⊎ ((status_limited ops (some root) ≡ true)
            × (has_limited_window ops (usage_in ops root) ≡ false))
        ⊎ (is_over threshold (percent_of ops window) ≡ true)
      → Qualifies root (usage_in ops root) threshold window
  counts-Qualifies root window threshold (inl limited) = inl (limited-HasLimit window limited)
  counts-Qualifies root window threshold (inr (inl (top, none_is))) =
      inr (inl (limited-HasLimit root top, no_window (usage_in ops root) none_is))
  counts-Qualifies root window threshold (inr (inr over)) =
      let (p, is, reaches) = over-Reaches threshold (percent_of ops window) over in
      inr (inr (p, percent_part _ _ p is, reaches))

  Qualifies-counts :
      (root window : J) (threshold : F64)
      → Qualifies root (usage_in ops root) threshold window
      → (status_limited ops (some window) ≡ true)
        ⊎ ((status_limited ops (some root) ≡ true)
            × (has_limited_window ops (usage_in ops root) ≡ false))
        ⊎ (is_over threshold (percent_of ops window) ≡ true)
  Qualifies-counts root window threshold (inl limited) = inl (HasLimit-limited window limited)
  Qualifies-counts root window threshold (inr (inl (top, never))) =
      inr (inl (HasLimit-limited root top, no_window-of (usage_in ops root) never))
  Qualifies-counts root window threshold (inr (inr (p, has, reaches))) = inr (
      inr
        (ap (is_over threshold) (HasPercent-of window p has) ∙ reached-is_over threshold p reaches))

  due_reset-cases :
      (top has : Bool) (threshold : F64) (now reset : ℕ) (w : Option J)
      → due_reset ops top has threshold now w ≡ some reset
      → (window : J) × (w ≡ some window)
        × ((status_limited ops (some window) ≡ true)
            ⊎ ((top ≡ true) × (has ≡ false))
            ⊎ (is_over threshold (percent_of ops window) ≡ true))
        × (reset_of ops window ≡ some reset)
        × (now < reset)
  unfolding due_reset
  due_reset-cases top has threshold now reset none due = cc
  due_reset-cases top has threshold now reset (some window) due =
      let limited = status_limited ops (some window) in
      let over = is_over threshold (percent_of ops window) in
      let (counts, ahead) = unless_skipped top has limited over _ reset due in
      let (same, later) = ahead_of-some now (reset_of ops window) reset ahead in
      (window, refl, counts, same, later)

  -- The reset that the loop sees in a window is that of a window that is due.
  pub due_in-DueUntil :
      (root : J) (threshold : F64) (now : ℕ) (name : String) (reset : ℕ)
      → due_in ops root threshold now name ≡ some reset
      → DueUntil root (usage_in ops root) threshold now name reset
  due_in-DueUntil root threshold now name reset due =
      let (window, found, counts, same, ahead) =
        due_reset-cases _ _ threshold now reset (ops.get (usage_in ops root) name) due in
      (window, found, counts-Qualifies root window threshold counts, reset_part _ reset same, ahead)

  -- The loop sees every window that is due.
  pub DueUntil-due_in :
      (root : J) (threshold : F64) (now : ℕ) (name : String) (reset : ℕ)
      → DueUntil root (usage_in ops root) threshold now name reset
      → due_in ops root threshold now name ≡ some reset
  unfolding due_reset
  DueUntil-due_in root threshold now name reset (window, found, counts, resets, ahead) = rw found (
      not_skipped (status_limited ops (some root)) (has_limited_window ops (usage_in ops root))
        (status_limited ops (some window)) (is_over threshold (percent_of ops window))
        (ahead_of now (reset_of ops window)) (Qualifies-counts root window threshold counts)
      ∙ ap (ahead_of now) (ResetsAt-of window reset resets)
      ∙ rw (leb-false reset now ahead) refl)
