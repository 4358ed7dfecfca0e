-- ===== src/Gateway/Pipeline/State.antt =====
-- The state of `Gateway` of app/gateway/gateway.py, and what it reads.
use agent_learn.Base.{ℕ, Bool, Option, none, List, [], max}
use agent_learn.Gateway.Request.{
  Request, Priority, RejectReason, ServedBy, Outcome, QueuePolicy, normal,
}
use agent_learn.Gateway.Limiter
use agent_learn.Gateway.Breaker
use agent_learn.Gateway.Cache
use agent_learn.Gateway.Coalescer
use agent_learn.Gateway.Admission
use agent_learn.Gateway.Scheduler
use agent_learn.Gateway.Semaphore
use agent_learn.Gateway.Budget

-- `GatewayConfig`, by the component that reads it.
pub record Config : Type 0 where
  pub limits : Limiter.Config
  pub breaker : Breaker.Config
  pub cache : Cache.Config
  pub admission : Admission.Config
  pub retry : Budget.Config
  pub retry_budget_ratio : Option ℕ
  pub upstream_concurrency : ℕ
  pub throughput_window_ms : ℕ
  pub queue_capacity : ℕ
  pub queue_policy : QueuePolicy
  pub aging_per_second : ℕ
  pub coalescing_enabled : Bool
  pub sweep_expired : Bool
  pub sweep_interval_ms : ℕ
  pub retry_enabled : Bool

pub record Env : Type 0 where
  pub accepts : ℕ → Bool
  pub backoff : ℕ → ℕ → ℕ
  pub jitter : ℕ → ℕ
  pub call_named : ℕ → Option ℕ

pub record InFlight : Type 0 where
  pub req : Request
  pub started_ms : ℕ
  pub degrade : Bool

-- `GatewayCounters`.
pub record Counters : Type 0 where
  pub arrived : ℕ
  pub cache_hit_l1 : ℕ
  pub cache_hit_l2 : ℕ
  pub cache_hit_semantic : ℕ
  pub coalesced : ℕ
  pub enqueued : ℕ
  pub dispatched : ℕ
  pub upstream_calls : ℕ
  pub upstream_429 : ℕ
  pub retries : ℕ
  pub rejected : ℕ
  pub queue_full : ℕ
  pub swept_timeout : ℕ
  pub dispatch_expired : ℕ
  pub inflight_timeout : ℕ
  pub completed_ok : ℕ
  pub completed_degraded : ℕ
  pub failed : ℕ

pub record OutcomeRecord : Type 0 where
  pub request_id : ℕ
  pub tenant_id : ℕ
  pub priority : Priority
  pub status : Outcome
  pub reason : Option RejectReason
  pub served_by : ServedBy
  pub latency_ms : ℕ
  pub queue_ms : ℕ
  pub attempts : ℕ
  pub degraded : Bool
  pub arrived_ms : ℕ
  pub finished_ms : ℕ

-- The arguments of `_finish` that end up in an outcome.
pub record Verdict : Type 0 where
  pub status : Outcome
  pub reason : Option RejectReason
  pub served_by : ServedBy
  pub degraded : Bool

pub record Gateway : Type 0 where
  pub limiters : Limiter.Limiters
  pub cache : Cache.Cache
  pub coalescer : Coalescer.Coalescer
  pub scheduler : Scheduler.Scheduler
  pub semaphore : Semaphore.Semaphore
  pub breaker : Breaker.Breaker
  pub retry_budget : Budget.Budget
  pub retry_planner : Budget.Planner
  pub admission : Admission.Controller
  pub inflight : List (ℕ × InFlight)
  pub leader_key : List (ℕ × ℕ)
  pub enqueued_at : List (ℕ × ℕ)
  pub queue_wait_ms : List (ℕ × ℕ)
  pub last_sweep_ms : ℕ
  pub call_seq : ℕ
  pub counters : Counters
  pub outcomes : List OutcomeRecord

abbrev no_counters : Counters
no_counters = record {
  arrived = 0;
  cache_hit_l1 = 0;
  cache_hit_l2 = 0;
  cache_hit_semantic = 0;
  coalesced = 0;
  enqueued = 0;
  dispatched = 0;
  upstream_calls = 0;
  upstream_429 = 0;
  retries = 0;
  rejected = 0;
  queue_full = 0;
  swept_timeout = 0;
  dispatch_expired = 0;
  inflight_timeout = 0;
  completed_ok = 0;
  completed_degraded = 0;
  failed = 0;
}

-- `__init__`, of the gateway and of the two classes of admission.py.
unfoldable pub new : Config → Gateway
new c = record {
  limiters = Limiter.new c.limits;
  cache = Cache.new c.cache;
  coalescer = Coalescer.new;
  scheduler = Scheduler.new c.queue_capacity c.queue_policy c.aging_per_second;
  semaphore = Semaphore.new c.upstream_concurrency;
  breaker = Breaker.new;
  retry_budget = Budget.new c.retry_budget_ratio 20 5000;
  retry_planner = record { suppressed_by_deadline = 0; suppressed_by_budget = 0 };
  admission = record {
    estimator = record {
      window_ms = c.throughput_window_ms;
      static_capacity = (c.upstream_concurrency, max c.admission.service_time_estimate_ms 1);
      min_samples = 5;
      completions = [];
      started_ms = none;
    };
    rejected_infeasible = 0;
    rejected_overloaded = 0;
    degraded = 0;
    last_pressure = (0, 1);
    last_shed_level = normal;
  };
  inflight = [];
  leader_key = [];
  enqueued_at = [];
  queue_wait_ms = [];
  last_sweep_ms = 0;
  call_seq = 0;
  counters = no_counters;
  outcomes = [];
}
