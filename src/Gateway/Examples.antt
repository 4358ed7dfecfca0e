-- ===== src/Gateway/Examples.antt =====
-- The theorems on the gateway at concrete requests.
mod Caching
mod Waiting
mod Flow
use agent_learn.Base.{
  ℕ, ◌+◌, ◌-◌, ◌*◌, ◌/◌, ◌≤◌, ◌<◌, ◌≡◌, refl, ◌≢◌, ◌↔◌, true, false, none, some, List, [], ◌∷◌,
  arith, All, length, lookup,
}
use agent_learn.Gateway.Request.{Request, standard, open_state, closed, half_open, cache_l1}
use agent_learn.Gateway.Bucket
use agent_learn.Gateway.Bucket.Spending
use agent_learn.Gateway.Window
use agent_learn.Gateway.Window.Quota.{admitted, in_window, window_quota}
use agent_learn.Gateway.Limiter.{Limiters, tenant_bucket, check}
use agent_learn.Gateway.Limiter
use agent_learn.Gateway.Limiter.Isolation.{Grants, check-isolated}
use agent_learn.Gateway.Semaphore
use agent_learn.Gateway.Semaphore.Bound.{
  acquires, releases, limits, highest, count_releases, semaphore_bound,
}
use agent_learn.Gateway.Semaphore.Bound
use agent_learn.Gateway.Breaker.{Breaker, record_result}
use agent_learn.Gateway.Breaker
use agent_learn.Gateway.Breaker.Trips.{asks, reports, OpenSince, run-refuses}
use agent_learn.Gateway.Breaker.Trips
use agent_learn.Gateway.Breaker.Probes.{succeed, ask, Probed, probes-settle, ask-unbounded}
use agent_learn.Gateway.Budget.{should_retry, backoff_ms}
use agent_learn.Gateway.Budget
use agent_learn.Gateway.Budget.Ratio.{
  succeeds, retries, successes, budget_ratio, should_retry_deadline,
}
use agent_learn.Gateway.Budget.Ratio
use agent_learn.Gateway.Coalescer.{drain_all, orphans}
use agent_learn.Gateway.Coalescer
use agent_learn.Gateway.Coalescer.Riders.{arrives, completes, joined_by, waiting, riders_conserved}
use agent_learn.Gateway.Scheduler.Weight.{weigh}
use agent_learn.Base.{◌==◌, if◌then◌else◌}
use agent_learn.Gateway.Coalescer.Riders
use agent_learn.Gateway.Lru.{Entry, size}
use agent_learn.Gateway.Lru
use agent_learn.Gateway.Lru.Recency.{puts, read-survives}
use agent_learn.Gateway.Lru.Capacity.{reads, writes, drops, tier_capacity}
use agent_learn.Gateway.Lru.Capacity
use agent_learn.Gateway.Cache.{Cache, lookup_tiers, negative_hit, store_negative}
use agent_learn.Gateway.Cache
use agent_learn.Gateway.Cache.Freshness.{Held, lookup-fresh, negative_hit-store_negative}

abbrev pub request : ℕ → Request
request id = record {
  request_id = id;
  tenant_id = 2;
  priority = standard;
  cache_key = 77;
  semantic_key = 7;
  arrived_ms = 100;
  deadline_ms = 5000;
  tenant_weight = 1000;
  attempts = 0;
  is_retry = false;
  expected_service_ms = 1500;
  coalescable = true;
  degrade = false;
}

run_bound_example :
    let (b, spent) =
      Bucket.Spending.run (Bucket.new 5 2) ((10, 1000) ∷ (11, 1000) ∷ (12, 1000) ∷ []) in
    (until : ℕ) × (b.last_ms ≡ some until)
    × (10 ≤ until)
    × (spent ≤ 1000 * 2 + (until - 10) * 5)
    × (b.tokens ≤ 1000 * 2)
run_bound_example = Bucket.Spending.run_bound 5 2 10 1000 ((11, 1000) ∷ (12, 1000) ∷ [])

window_quota_example :
    in_window 1000 1100 (admitted (Window.new 2 1000) (900 ∷ 950 ∷ 1000 ∷ [])) ≤ 2
window_quota_example =
    window_quota 2 1000 (900 ∷ 950 ∷ 1000 ∷ []) (omega arith, (omega arith, (omega arith, tt))) 1100

abbrev pub limits_config : Limiter.Config
limits_config = record {
  edge_rps = 100;
  edge_burst = 10;
  tenant_rps = (2, 5) ∷ (3, 5) ∷ [];
  tenant_burst = (2, 1) ∷ [];
}

abbrev limiters : Limiters
limiters = Limiter.new limits_config

check-isolated_example :
    (((check limits_config limiters (request 1) 100).1 ≡ none) ↔ (
      ((Bucket.try_acquire limiters.edge 100 1000).1 ≡ true)
      × Grants (tenant_bucket limits_config limiters 2) 100))
    × ((other : ℕ)
        → other ≢ 2
        → lookup other (check limits_config limiters (request 1) 100).0.tenant_buckets
          ≡ lookup other limiters.tenant_buckets)
check-isolated_example = check-isolated limits_config limiters (request 1) 100

abbrev semaphore_calls : List Semaphore.Bound.Call
semaphore_calls = acquires ∷ acquires ∷ limits 1 ∷ acquires ∷ releases ∷ []

semaphore_bound_example :
    ((Semaphore.Bound.run (Semaphore.new 2) semaphore_calls).inflight ≤ highest 2 semaphore_calls)
    × ((Semaphore.Bound.run (Semaphore.new 2) semaphore_calls).acquired_total
        ≤ (Semaphore.Bound.run (Semaphore.new 2) semaphore_calls).inflight
          + count_releases semaphore_calls)
semaphore_bound_example = semaphore_bound 2 semaphore_calls

abbrev pub breaker_config : Breaker.Config
breaker_config = record {
  breaker_enabled = true;
  breaker_cooldown_ms = 5000;
  breaker_half_open_probes = 3;
  breaker_window_ms = 10000;
  breaker_min_samples = 20;
  breaker_failure_ratio = 500;
}

abbrev tripped : Breaker
tripped = record {
  state = open_state;
  events = [];
  opened_ms = some 1000;
  half_open_probes = 0;
  trips = 1;
  short_circuited = 0;
}

abbrev breaker_calls : List Breaker.Trips.Call
breaker_calls = asks 2000 ∷ reports true 3000 ∷ asks 5999 ∷ []

run-refuses_example :
    OpenSince 1000 (Breaker.Trips.run breaker_config tripped breaker_calls).0
    × All (λ answer. answer ≡ false) (Breaker.Trips.run breaker_config tripped breaker_calls).1
run-refuses_example =
    run-refuses breaker_config tripped 1000 breaker_calls refl (refl, (1000, refl, (omega arith)))
      ((omega arith, omega arith), ((omega arith, omega arith), ((omega arith, omega arith), tt)))

abbrev probing : Breaker
probing = record tripped { state = half_open }

probes-settle_example :
    Probed 2 (succeed breaker_config probing 7000 2)
    × ((record_result breaker_config (succeed breaker_config probing 7000 2) false 7000).state
        ≡ open_state)
    × ((record_result breaker_config (succeed breaker_config probing 7000 2) false 7000).opened_ms
        ≡ some 7000)
    × (3 ≡ 2 + 1
        → (record_result breaker_config (succeed breaker_config probing 7000 2) true 7000).state
          ≡ closed)
probes-settle_example = probes-settle breaker_config probing 2 7000 refl (refl, refl) (omega arith)

ask-unbounded_example :
    ((ask breaker_config probing 7000 50).0 ≡ probing)
    × All (λ answer. answer ≡ true) (ask breaker_config probing 7000 50).1
    × (length (ask breaker_config probing 7000 50).1 ≡ 50)
ask-unbounded_example = ask-unbounded breaker_config probing 7000 50 refl (refl, refl) (omega arith)

abbrev budget_calls : List Budget.Ratio.Call
budget_calls = retries ∷ succeeds ∷ retries ∷ succeeds ∷ []

budget_ratio_example :
    (Budget.Ratio.run (Budget.new (some 100) 20 5000) budget_calls).granted * 1000
    ≤ 5000 + 100 * successes budget_calls
budget_ratio_example = budget_ratio 100 20 5000 budget_calls

abbrev pub retry_config : Budget.Config
retry_config = record { retry_base_ms = 200; retry_cap_ms = 2000; retry_max_attempts = 3 }

abbrev planner : Budget.Planner
planner = record { suppressed_by_deadline = 0; suppressed_by_budget = 0 }

abbrev least : ℕ → ℕ
least n = 0

should_retry_deadline_example :
    (((should_retry retry_config planner 1 900 5000 (backoff_ms retry_config least 1)).1 ≡ true)
      ↔ ((1 + 1 < 3) × (900 + backoff_ms retry_config least 1 < 5000)))
    × (backoff_ms retry_config least 1 ≤ 2000)
should_retry_deadline_example =
    should_retry_deadline retry_config planner least 1 900 5000 λ n. omega arith

abbrev rides : List Coalescer.Riders.Call
rides =
    arrives (request 1) 100 ∷ arrives (request 2) 110 ∷ completes 77 ∷ arrives (request 3) 120 ∷ []

-- 1 for the second request, and 0 for the others.
abbrev second : Request → ℕ
second r = if r.request_id == 2 then 1 else 0

riders_conserved_example :
    (weigh second (joined_by Coalescer.new rides)
      ≡ weigh second (Coalescer.Riders.run Coalescer.new rides).1
        + waiting second (Coalescer.Riders.run Coalescer.new rides).0)
    × ((Coalescer.Riders.run Coalescer.new rides).0.joined ≡ length (joined_by Coalescer.new rides))
    × (orphans (drain_all (Coalescer.Riders.run Coalescer.new rides).0).0.inflight ≡ [])
riders_conserved_example = riders_conserved second rides
