-- ===== src/Gateway/Semaphore.antt =====
-- app/gateway/protect.py, `UpstreamSemaphore`: the number of upstream calls in flight.
pub mod Bound
use agent_learn.Base.{ℕ, ◌+◌, ◌-◌, Bool, true, false, leb, ltb, if◌then◌else◌, max}

pub record Semaphore : Type 0 where
  pub limit : ℕ
  pub inflight : ℕ
  pub acquired_total : ℕ
  pub denied_total : ℕ

unfoldable pub new : ℕ → Semaphore
new limit = record { limit = limit; inflight = 0; acquired_total = 0; denied_total = 0 }

unfoldable pub try_acquire : Semaphore → Semaphore × Bool
try_acquire s =
    if leb s.limit s.inflight
    then (record s { denied_total = s.denied_total + 1 }, false)
    else (record s { inflight = s.inflight + 1; acquired_total = s.acquired_total + 1 }, true)

unfoldable pub release : Semaphore → Semaphore
release s = if ltb 0 s.inflight then record s { inflight = s.inflight - 1 } else s

unfoldable pub set_limit : Semaphore → ℕ → Semaphore
set_limit s limit = record s { limit = max 1 limit }
