-- ===== src/Jobs/Retry.antt =====
-- app/retry/policy.py: which errors are tried again, and after how long.
use native.Mathlib.Nat.{pow-suc}
use native.Mathlib.Numerals.{add-one}
use agent_learn.Base.{ℕ, ◌+◌, ◌*◌, ◌^◌, ◌≤◌, Bool, true, false, arith, min}

-- The exceptions of app/domain/exceptions.py that a step can end with, and any other one.
pub data Failure : Type 0 where
  retryable non_retryable other : Failure

unfoldable pub should_retry : Failure → Bool
should_retry non_retryable = false
should_retry retryable = true
should_retry other = false

-- `drawn` is what `random.uniform(0, jitter)` returns.
unfoldable pub compute_backoff : ℕ → ℕ → ℕ → ℕ → ℕ
compute_backoff retry_count base max_delay drawn = min max_delay (base * 2 ^ retry_count) + drawn

doubling_le : (base r : ℕ) → base * 2 ^ r ≤ base * 2 ^ (r + 1)
doubling_le base r = rw (add-one r, pow-suc 2 r) (grind arith)

-- Whatever is drawn up to the jitter, the delay lies between the capped exponential and that plus
-- the jitter, and the capped exponential never falls from one retry to the next.
pub compute_backoff_bounds :
    (retry_count base max_delay jitter drawn : ℕ)
    → drawn ≤ jitter
    → (min max_delay (base * 2 ^ retry_count) ≤ compute_backoff retry_count base max_delay drawn)
      × (compute_backoff retry_count base max_delay drawn ≤ max_delay + jitter)
      × (compute_backoff retry_count base max_delay 0
          ≤ compute_backoff (retry_count + 1) base max_delay 0)
unfolding compute_backoff
compute_backoff_bounds retry_count base max_delay jitter drawn h =
    (omega arith, omega arith, omega (arith, doubling_le base retry_count))
