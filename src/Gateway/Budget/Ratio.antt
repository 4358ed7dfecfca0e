-- ===== src/Gateway/Budget/Ratio.antt =====
-- What the budget grants over any sequence of calls, and when a retry is planned.
use agent_learn.Base.{
  ℕ, suc, ◌+◌, ◌*◌, ◌^◌, ◌≤◌, ◌<◌, ◌≡◌, refl, ◌↔◌, inl, inr, true, some, List, [], ◌∷◌, arith, leb,
  min, Bool-cases,
}
use native.Mathlib.Nat.{mul-zero, mul-suc}
use agent_learn.Gateway.Budget.{
  Budget, new, refill, on_success, spend, allow, Config, Planner, backoff_ms, should_retry,
}

pub data Call : Type 0 where
  succeeds retries : Call

abbrev pub step : Budget → Call → Budget
step b succeeds = on_success b
step b retries = (allow b).0

pub run : Budget → List Call → Budget
run b [] = b
run b (c ∷ cs) = run (step b c) cs

abbrev pub successes : List Call → ℕ
successes [] = 0
successes (succeeds ∷ cs) = suc (successes cs)
successes (retries ∷ cs) = successes cs

on_success-paid :
    (b : Budget) (ratio paid : ℕ)
    → b.ratio ≡ some ratio
    → b.granted * 1000 + b.tokens ≤ paid
    → ((on_success b).ratio ≡ some ratio)
      × ((on_success b).granted * 1000 + (on_success b).tokens ≤ paid + ratio)
unfolding on_success refill
on_success-paid b ratio paid e h = rw e (refl, omega arith)

allow-paid :
    (b : Budget) (ratio paid : ℕ)
    → b.ratio ≡ some ratio
    → b.granted * 1000 + b.tokens ≤ paid
    → ((allow b).0.ratio ≡ some ratio) × ((allow b).0.granted * 1000 + (allow b).0.tokens ≤ paid)
unfolding allow spend
allow-paid b ratio paid e h = elim (Bool-cases (leb 1000 b.tokens)) [
  | inl k ↦ rw (e, k) (refl, ground arith)
  | inr k ↦ rw (e, k) (refl, h)
]

run-paid :
    (b : Budget) (ratio paid : ℕ) (cs : List Call)
    → b.ratio ≡ some ratio
    → b.granted * 1000 + b.tokens ≤ paid
    → (run b cs).granted * 1000 + (run b cs).tokens ≤ paid + ratio * successes cs
unfolding run
run-paid b ratio paid [] e h = (let nothing = mul-zero ratio in omega arith)
run-paid b ratio paid (succeeds ∷ cs) e h =
    let first = on_success-paid b ratio paid e h in
    let rest = run-paid (on_success b) ratio (paid + ratio) cs first.0 first.1 in
    (let one_more = mul-suc ratio (successes cs) in omega arith)
run-paid b ratio paid (retries ∷ cs) e h =
    let first = allow-paid b ratio paid e h in run-paid (allow b).0 ratio paid cs first.0 first.1

-- With a ratio, the retries that a budget grants over any sequence of calls are paid for: a
-- thousand for each grant is at most the initial tokens and the ratio times the successes.
pub budget_ratio :
    (ratio burst initial : ℕ) (cs : List Call)
    → (run (new (some ratio) burst initial) cs).granted * 1000 ≤ initial + ratio * successes cs
unfolding new
budget_ratio ratio burst initial cs =
    let paid = run-paid (new (some ratio) burst initial) ratio initial cs refl (omega arith) in
    omega arith

planned :
    (c : Config) (p : Planner) (attempt now_ms deadline_ms backoff : ℕ)
    → ((should_retry c p attempt now_ms deadline_ms backoff).1 ≡ true)
      ↔ ((attempt + 1 < c.retry_max_attempts) × (now_ms + backoff < deadline_ms))
unfolding should_retry
planned c p attempt now_ms deadline_ms backoff = ground arith

-- A retry is planned exactly when an attempt is left and the backoff ends before the deadline, and
-- a backoff drawn from the interval it is given is within the cap.
pub should_retry_deadline :
    (c : Config) (p : Planner) (rng : ℕ → ℕ) (attempt now_ms deadline_ms : ℕ)
    → ((n : ℕ) → rng n ≤ n)
    → (((should_retry c p attempt now_ms deadline_ms (backoff_ms c rng attempt)).1 ≡ true) ↔ (
        (attempt + 1 < c.retry_max_attempts) × (now_ms + backoff_ms c rng attempt < deadline_ms)))
      × (backoff_ms c rng attempt ≤ c.retry_cap_ms)
unfolding backoff_ms
should_retry_deadline c p rng attempt now_ms deadline_ms draws =
    let b = backoff_ms c rng attempt in
    let drawn = draws (min c.retry_cap_ms (c.retry_base_ms * 2 ^ attempt)) in
    (planned c p attempt now_ms deadline_ms b, omega arith)
