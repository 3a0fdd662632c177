-- ===== src/HotReload/Static.antt =====
-- What src/hot_reload.rs never lets a reload change.
use orihsus.Prelude.{◌≡◌, ◌⊎◌, inl, inr, refl, ap, Bool, true, false, arith}
use orihsus.Float.{F64, nan, infinite, finite, le_f64}
use orihsus.Config.Compare.{eq_f64}
use text.Mathlib.TextEquality.{eq_iff}
use orihsus.Config.Types.{Config}
use orihsus.Config.Compare.Equal.{
  eq_listen_lem, eq_limits_lem, eq_key_failure_handling_lem, eq_audit_lem, eq_server_lem,
}
use orihsus.HotReload.{non_hot_changed}

-- The same float, or two zeros.
abbrev pub SameNumber : F64 → F64 → Type 0
SameNumber a b = (a ≡ b) ⊎ ((s : Bool) × (t : Bool) × (a ≡ finite s 0) × (b ≡ finite t 0))

eq_f64-SameNumber : (a b : F64) → eq_f64 a b ≡ true → SameNumber a b
unfolding le_f64
eq_f64-SameNumber nan b same = cc
eq_f64-SameNumber (infinite true) nan same = cc
eq_f64-SameNumber (infinite true) (infinite true) same = inl refl
eq_f64-SameNumber (infinite true) (infinite false) same = cc
eq_f64-SameNumber (infinite true) (finite t m) same = cc
eq_f64-SameNumber (infinite false) nan same = cc
eq_f64-SameNumber (infinite false) (infinite true) same = cc
eq_f64-SameNumber (infinite false) (infinite false) same = inl refl
eq_f64-SameNumber (infinite false) (finite t m) same = cc
eq_f64-SameNumber (finite s n) nan same = cc
eq_f64-SameNumber (finite s n) (infinite true) same = cc
eq_f64-SameNumber (finite s n) (infinite false) same = cc
eq_f64-SameNumber (finite false n) (finite false m) same = inl (ap (finite false) (ground arith))
eq_f64-SameNumber (finite true n) (finite true m) same = inl (ap (finite true) (ground arith))
eq_f64-SameNumber (finite false n) (finite true m) same =
    inr (false, true, ap (finite false) (ground arith), ap (finite true) (ground arith))
eq_f64-SameNumber (finite true n) (finite false m) same =
    inr (true, false, ap (finite true) (ground arith), ap (finite false) (ground arith))

-- The two agree on what only a restart applies.
pub record SameStatic (cfg baseline : Config) : Type 0 where
  pub same_listen : cfg.listen ≡ baseline.listen
  pub same_limits : cfg.limits ≡ baseline.limits
  pub same_handling : cfg.key_failure_handling ≡ baseline.key_failure_handling
  pub same_threshold :
      SameNumber cfg.usage.soft_threshold_percent baseline.usage.soft_threshold_percent
  pub same_poll : cfg.usage.poll_interval ≡ baseline.usage.poll_interval
  pub same_history : cfg.usage_history_dir ≡ baseline.usage_history_dir
  pub same_audit : cfg.audit ≡ baseline.audit
  pub same_server : cfg.server ≡ baseline.server

pub unchanged-SameStatic :
    (cfg baseline : Config) → non_hot_changed cfg baseline ≡ false → SameStatic cfg baseline
unfolding non_hot_changed
unchanged-SameStatic cfg baseline same = record {
  same_listen = eq_listen_lem cfg.listen baseline.listen (ground arith);
  same_limits = eq_limits_lem cfg.limits baseline.limits (ground arith);
  same_handling =
      eq_key_failure_handling_lem cfg.key_failure_handling baseline.key_failure_handling
        (ground arith);
  same_threshold =
      eq_f64-SameNumber cfg.usage.soft_threshold_percent baseline.usage.soft_threshold_percent
        (ground arith);
  same_poll = ground arith;
  same_history = ground (arith, eq_iff cfg.usage_history_dir baseline.usage_history_dir);
  same_audit = eq_audit_lem cfg.audit baseline.audit (ground arith);
  same_server = eq_server_lem cfg.server baseline.server (ground arith);
}
