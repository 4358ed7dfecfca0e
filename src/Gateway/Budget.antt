-- ===== src/Gateway/Budget.antt =====
-- app/gateway/protect.py, `RetryBudget` and `RetryPlanner`. Tokens and the ratio come in
-- thousandths; `rng` draws from the interval it is given.
pub mod Ratio
use agent_learn.Base.{
  ℕ, ◌+◌, ◌-◌, ◌*◌, ◌^◌, Bool, true, false, Option, none, some, leb, min, if◌then◌else◌,
}

pub record Budget : Type 0 where
  pub ratio : Option ℕ
  pub burst : ℕ
  pub tokens : ℕ
  pub denied : ℕ
  pub granted : ℕ

unfoldable pub new : Option ℕ → ℕ → ℕ → Budget
new ratio burst initial = record {
  ratio = ratio;
  burst = burst * 1000;
  tokens = initial;
  denied = 0;
  granted = 0;
}

unfoldable pub refill : Budget → Option ℕ → Budget
refill b none = b
refill b (some ratio) = record b { tokens = min b.burst (b.tokens + ratio) }

unfoldable pub on_success : Budget → Budget
on_success b = refill b b.ratio

unfoldable pub spend : Budget → Option ℕ → Budget × Bool
spend b none = (record b { granted = b.granted + 1 }, true)
spend b (some _) =
    if leb 1000 b.tokens
    then (record b { tokens = b.tokens - 1000; granted = b.granted + 1 }, true)
    else (record b { denied = b.denied + 1 }, false)

unfoldable pub allow : Budget → Budget × Bool
allow b = spend b b.ratio

-- What the planner reads of `GatewayConfig`.
pub record Config : Type 0 where
  pub retry_base_ms : ℕ
  pub retry_cap_ms : ℕ
  pub retry_max_attempts : ℕ

pub record Planner : Type 0 where
  pub suppressed_by_deadline : ℕ
  pub suppressed_by_budget : ℕ

unfoldable pub backoff_ms : Config → (ℕ → ℕ) → ℕ → ℕ
backoff_ms c rng attempt = rng (min c.retry_cap_ms (c.retry_base_ms * 2 ^ attempt))

unfoldable pub should_retry : Config → Planner → ℕ → ℕ → ℕ → ℕ → Planner × Bool
should_retry c p attempt now_ms deadline_ms backoff =
    if leb c.retry_max_attempts (attempt + 1)
    then (p, false)
    else if leb deadline_ms (now_ms + backoff)
    then (record p { suppressed_by_deadline = p.suppressed_by_deadline + 1 }, false)
    else (p, true)
