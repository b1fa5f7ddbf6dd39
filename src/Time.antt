-- ===== src/Time.antt =====
-- Go's `time.Time` as the nanoseconds since its zero time, 1 January of year 1 UTC, and
-- `time.Duration`, an `int64` of nanoseconds. All instants are in UTC, so `UTC()` is the identity.
pub mod Format
use poison_trace.Base.{ℕ, ◌+◌, ◌-◌, ◌*◌, Bool, ltb, ◌==◌, min}

abbrev pub Time : Type 0
Time = ℕ

abbrev pub second : ℕ
second = 1_000_000_000

abbrev pub day : ℕ
day = 86_400_000_000_000

-- Seconds from the zero time to the Unix epoch.
abbrev pub unix_epoch : ℕ
unix_epoch = 62_135_596_800

-- `time.Unix(n, 0)`, for a timestamp that is not negative.
unfoldable pub unix : ℕ → Time
unix n = (unix_epoch + n) * second

-- `t.Before(u)` and `t.After(u)`.
abbrev pub before : Time → Time → Bool
before t u = ltb t u

abbrev pub after : Time → Time → Bool
after t u = ltb u t

abbrev pub is_zero : Time → Bool
is_zero t = t == 0

-- The largest `time.Duration`.
abbrev pub max_duration : ℕ
max_duration = 9_223_372_036_854_775_807

-- `t.Sub(u)` for `u` not after `t`: it saturates.
abbrev pub sub : Time → Time → ℕ
sub t u = min (t - u) max_duration

-- `time.Duration(days) * 24 * time.Hour` wraps around at 64 bits. A value from 2 ^ 63 on stands
-- for a negative duration.
abbrev pub duration_mod : ℕ
duration_mod = 18_446_744_073_709_551_616
