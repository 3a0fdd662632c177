-- ===== src/Float.antt =====
-- Rust's `f64`, exactly. Every finite value is a whole multiple of 2^-1074, the least positive one:
-- `finite sign n` is n * 2^-1074, negative where the sign is `true`.
use orihsus.Prelude.{ℕ, ◌*◌, ◌^◌, Bool, true, false, not, ◌&&◌, leb, ◌==◌}

pub data F64 : Type 0 where
  nan : F64
  infinite : Bool → F64
  finite : Bool → ℕ → F64

-- A whole number, in the unit.
abbrev pub whole : ℕ → F64
whole n = finite false (n * 2 ^ 1074)

unfoldable pub is_finite : F64 → Bool
is_finite (finite sign n) = true
is_finite _ = false

-- `a <= b`: false where either is no number, and the two zeros are equal.
unfoldable pub le_f64 : F64 → F64 → Bool
le_f64 nan b = false
le_f64 (infinite true) nan = false
le_f64 (infinite true) b = true
le_f64 (infinite false) (infinite false) = true
le_f64 (infinite false) b = false
le_f64 (finite s n) nan = false
le_f64 (finite s n) (infinite t) = not t
le_f64 (finite false n) (finite false m) = leb n m
le_f64 (finite false n) (finite true m) = n == 0 && m == 0
le_f64 (finite true n) (finite false m) = true
le_f64 (finite true n) (finite true m) = leb m n

-- `a < b`, `a > b`.
unfoldable pub lt_f64 : F64 → F64 → Bool
unfolding le_f64
lt_f64 a b = le_f64 a b && not (le_f64 b a)
