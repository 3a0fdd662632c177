-- ===== src/Time.antt =====
-- `std::time::Duration` and `tokio::time::Instant`, in whole nanoseconds.
-- A duration holds 64 bits of seconds and the nanoseconds below a second; an instant is counted
-- from the start of the monotonic clock, whose seconds are a signed 64-bit number.
use orihsus.Prelude.{ℕ, ◌+◌, ◌-◌, ◌*◌, ◌^◌, min, Option, none, some, leb, if◌then◌else◌}

abbrev pub nanos_per_sec : ℕ
nanos_per_sec = 1_000_000_000

abbrev pub from_secs : ℕ → ℕ
from_secs s = s * nanos_per_sec

-- `Duration::MAX`.
abbrev pub duration_max : ℕ
duration_max = 2 ^ 64 * nanos_per_sec - 1

-- The last instant that a clock with signed 64-bit seconds can hold.
abbrev pub instant_max : ℕ
instant_max = 2 ^ 63 * nanos_per_sec - 1

-- `Duration::saturating_add` and `Duration::saturating_mul`.
abbrev pub saturating_add : ℕ → ℕ → ℕ
saturating_add a b = min (a + b) duration_max

abbrev pub saturating_mul : ℕ → ℕ → ℕ
saturating_mul a k = min (a * k) duration_max

-- `Instant::checked_add`.
unfoldable pub checked_add : ℕ → ℕ → Option ℕ
checked_add now d = if leb (now + d) instant_max then some (now + d) else none
