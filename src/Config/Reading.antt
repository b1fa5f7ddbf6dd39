-- ===== src/Config/Reading.antt =====
-- Integers in the environment, written and read (internal/config/config.go, `getEnvInt`).
use poison_trace.Base.{ℤ, true, some, ◌≡◌, ◌∙◌, ap, refl}
use poison_trace.Text.{Str}
use poison_trace.Text.Digits.{decimal_int}
use poison_trace.Text.Digits.RoundTrip.{big_int-decimal_int, decimal_int-not_empty}
use poison_trace.Errors.{ok}
use poison_trace.Config.{Environment, is_int64, in_range, atoi, get_env_int}

atoi-decimal_int : (z : ℤ) → is_int64 z ≡ true → atoi (decimal_int z) ≡ some z
unfolding atoi in_range
atoi-decimal_int z h = ap in_range (big_int-decimal_int z) ∙ rw h refl

-- A variable that holds the decimal digits of a 64-bit integer, with a sign if it is negative, is
-- read as that integer, whatever the fallback.
pub get_env_int-decimal_int :
    (env : Environment) (key : Str) (fallback z : ℤ)
    → env key ≡ decimal_int z
    → is_int64 z ≡ true
    → get_env_int env key fallback ≡ ok z
unfolding get_env_int
get_env_int-decimal_int env key fallback z e h =
    rw (e, decimal_int-not_empty z, atoi-decimal_int z h) refl
