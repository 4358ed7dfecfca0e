-- ===== src/Gateway/Bucket.antt =====
-- app/gateway/limiter.py, `TokenBucket`. Tokens are counted in thousandths, so that a rate of r
-- tokens per second is r thousandths per millisecond and the arithmetic is exact.
pub mod Spending
use agent_learn.Base.{
  ℕ, ◌+◌, ◌-◌, ◌*◌, Bool, true, false, Option, none, some, ltb, leb, if◌then◌else◌, min,
}

pub record Bucket : Type 0 where
  pub rate_per_ms : ℕ
  pub burst : ℕ
  pub tokens : ℕ
  pub last_ms : Option ℕ
  pub acquired : ℕ
  pub rejected : ℕ

unfoldable pub new : ℕ → ℕ → Bucket
new rate_per_sec burst = record {
  rate_per_ms = rate_per_sec;
  burst = 1000 * burst;
  tokens = 1000 * burst;
  last_ms = none;
  acquired = 0;
  rejected = 0;
}

-- `_refill` after the first call, which finds a time in `last_ms`.
unfoldable pub refill_since : Bucket → ℕ → ℕ → Bucket
refill_since b last now_ms = if leb now_ms last then b else record b {
  last_ms = some now_ms;
  tokens = min b.burst (b.tokens + (now_ms - last) * b.rate_per_ms);
}

unfoldable pub refill : Bucket → ℕ → Bucket
refill b now_ms = elim b.last_ms [
  | none ↦ record b { last_ms = some now_ms }
  | some last ↦ refill_since b last now_ms
]

-- Taking `tokens` from a bucket that is filled up.
unfoldable pub take : Bucket → ℕ → Bucket × Bool
take b tokens =
    if leb tokens b.tokens
    then (record b { tokens = b.tokens - tokens; acquired = b.acquired + 1 }, true)
    else (record b { rejected = b.rejected + 1 }, false)

unfoldable pub try_acquire : Bucket → ℕ → ℕ → Bucket × Bool
try_acquire b now_ms tokens = take (refill b now_ms) tokens
