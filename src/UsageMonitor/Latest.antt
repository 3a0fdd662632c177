-- ===== src/UsageMonitor/Latest.antt =====
-- What `evaluate` of src/usage.rs answers.
use mathlib.Core.Path.{sym, subst}
use mathlib.Core.Option
use orihsus.Prelude.{
  ◌≡◌, ◌∙◌, inl, inr, ℕ, ◌+◌, ◌-◌, ◌<◌, ◌≤◌, String, Option, none, some, List, [], ◌∷◌,
  le→ltb-false, All, All-map, arith,
}
use orihsus.Float.{F64}
use orihsus.UsageMonitor.{UsageOps, windows, usage_in, due_in, until_reset, evaluate}
use orihsus.UsageMonitor.Loop.{AnyOf, AnyOf-map, NoLater, Found, latest_loop-Found}
use orihsus.UsageMonitor.Due.{IsUsage, usage-is, DueUntil, due_in-DueUntil, DueUntil-due_in}

module _ {J : Type 0} (ops : UsageOps J) where
  -- The answer to a document: nothing if no window is due, and else the time to the latest reset
  -- of those that are.
  abbrev pub Answers : J → J → F64 → ℕ → Option ℕ → Type 0
  Answers root usage threshold now none =
      All (λ n. ¬ ((reset : ℕ) × DueUntil ops root usage threshold now n reset)) windows
  Answers root usage threshold now (some cooldown) =
      (0 < cooldown)
      × AnyOf (λ n. DueUntil ops root usage threshold now n (now + cooldown)) windows
      × All
          (λ n. ¬ (
            (reset : ℕ) × DueUntil ops root usage threshold now n reset × (now + cooldown < reset)))
          windows

  not_due :
      (root : J) (threshold : F64) (now : ℕ) (n : String)
      → due_in ops root threshold now n ≡ none
      → ¬ ((reset : ℕ) × DueUntil ops root (usage_in ops root) threshold now n reset)
  not_due root threshold now n nothing (reset, is) =
      Option.none-ne-some _ (sym nothing ∙ DueUntil-due_in ops root threshold now n reset is)

  not_later :
      (root : J) (threshold : F64) (now bound : ℕ) (n : String)
      → NoLater bound (due_in ops root threshold now n)
      → ¬ (
          (reset : ℕ) × DueUntil ops root (usage_in ops root) threshold now n reset
          × (bound < reset))
  not_later root threshold now bound n below (reset, is, later) =
      let le : reset ≤ bound =
        subst (NoLater bound) (DueUntil-due_in ops root threshold now n reset is) below in
      absurd (omega (arith, le, later))

  until_reset-Answers :
      (root : J) (threshold : F64) (now : ℕ) (latest : Option ℕ)
      → Found (due_in ops root threshold now) windows none latest
      → Answers root (usage_in ops root) threshold now (until_reset now latest)
  until_reset-Answers root threshold now none (_, rest) =
      All-map windows (not_due root threshold now) rest
  until_reset-Answers root threshold now (some m) (_, bound, inl old) = cc
  until_reset-Answers root threshold now (some m) (_, bound, inr due) =
      let is = AnyOf-map windows (λ n. due_in-DueUntil ops root threshold now n m) due in
      let ahead = AnyOf-ahead windows is in
      let whole_time : m ≡ now + (m - now) = omega (arith, ahead) in
      rw (le→ltb-false m now (omega (arith, ahead))) (
        omega (arith, ahead),
        subst (λ x. AnyOf (λ n. DueUntil ops root (usage_in ops root) threshold now n x) windows)
            whole_time is,
        subst
            (λ x.
              All
                (λ n. ¬ (
                  (reset : ℕ) × DueUntil ops root (usage_in ops root) threshold now n reset
                  × (x < reset)))
                windows)
            whole_time (All-map windows (not_later root threshold now m) bound),
      )
    where
      AnyOf-ahead :
          (ns : List String)
          → AnyOf (λ n. DueUntil ops root (usage_in ops root) threshold now n m) ns
          → now < m
      AnyOf-ahead [] h = absurd h
      AnyOf-ahead (n ∷ ns) (inl (_, _, _, _, later)) = later
      AnyOf-ahead (n ∷ ns) (inr there) = AnyOf-ahead ns there

  -- A readable usage response cools its key exactly if one of its three windows is due: the window is
  -- limited, or the response as a whole is and no window is, or the window's percentage is within 0 to
  -- 100 and at the threshold or above; and its reset lies ahead. The cooldown then is positive and
  -- ends at the latest reset of the windows that are due.
  pub evaluate-Answers :
      (body : List ℕ) (root usage : J) (threshold : F64) (now : ℕ)
      → ops.read body ≡ some root
      → IsUsage ops root usage
      → Answers root usage threshold now (evaluate ops body now threshold)
  unfolding evaluate
  evaluate-Answers body root usage threshold now readable under =
      subst (λ u. Answers root u threshold now (evaluate ops body now threshold))
        (usage-is ops root usage under)
        (rw readable (
          until_reset-Answers root threshold now _
            (latest_loop-Found (due_in ops root threshold now) windows none)))
