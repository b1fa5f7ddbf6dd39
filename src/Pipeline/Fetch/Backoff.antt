-- ===== src/Pipeline/Fetch/Backoff.antt =====
-- The waits between retries.
use poison_trace.Base.{ℕ, ◌*◌, ◌^◌, ◌≤◌, min, arith}
use native.Mathlib.Nat.{one-le-pow}
use poison_trace.Pipeline.Fetch.{retry_backoff, millisecond}

shift_pos : (k : ℕ) → 1 ≤ 2 ^ k
shift_pos k = one-le-pow k 2 (omega arith)

-- The wait before a retry is at least 200 ms and at most 5 s and 96 ms of jitter.
pub retry_backoff_bounds :
    (attempt : ℕ)
    → (200 * millisecond ≤ retry_backoff attempt) × (retry_backoff attempt ≤ 5096 * millisecond)
unfolding retry_backoff
retry_backoff_bounds attempt = omega (arith, shift_pos (min attempt 5))
