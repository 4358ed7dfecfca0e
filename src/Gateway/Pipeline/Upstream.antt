-- ===== src/Gateway/Pipeline/Upstream.antt =====
-- app/gateway/gateway.py: a call of the upstream, its failures and its completion.
use agent_learn.Base.{
  ℕ, ◌+◌, ◌-◌, Bool, true, false, not, ◌&&◌, Option, none, some, leb, if◌then◌else◌, lookup, insert,
  erase,
}
use agent_learn.Gateway.Request.{
  Request, Priority, batch, free, standard, interactive, critical, queue_full, upstream_error,
  upstream, ok, degraded, failed,
}
use agent_learn.Gateway.Breaker
use agent_learn.Gateway.Cache
use agent_learn.Gateway.Admission
use agent_learn.Gateway.Scheduler
use agent_learn.Gateway.Semaphore
use agent_learn.Gateway.Budget
use agent_learn.Gateway.Pipeline.State.{Config, Env, InFlight, Gateway}
use agent_learn.Gateway.Pipeline.Finish.{finish, reject, expired}

-- `Priority(max(0, req.priority.value - 1))`.
unfoldable pub lowered : Priority → Priority
lowered batch = batch
lowered free = batch
lowered standard = free
lowered interactive = standard
lowered critical = interactive

unfoldable pub retry_of : Request → Request
retry_of req = record req {
  attempts = req.attempts + 1;
  is_retry = true;
  priority = lowered req.priority;
}

-- A retry that was granted.
unfoldable pub requeue : Config → Env → Gateway → Request → ℕ → Gateway
requeue c env g retry now_ms =
    let queued = Scheduler.enqueue g.scheduler retry in
    let g' : Gateway = record g {
      scheduler = queued.0;
      counters = record g.counters { retries = g.counters.retries + 1 };
    } in
    if queued.1
    then record g' { enqueued_at = insert retry.request_id now_ms g'.enqueued_at }
    else reject c env g' retry (some queue_full) now_ms

-- A failure that is final.
unfoldable pub give_up : Config → Env → Gateway → Request → ℕ → Gateway
give_up c env g req now_ms =
    finish c env
      (record g {
        counters = record g.counters { failed = g.counters.failed + 1 };
        cache =
            if Cache.enabled c.cache
            then Cache.store_negative c.cache g.cache req now_ms
            else g.cache;
      })
      req now_ms
      (record {
        status = failed;
        reason = some upstream_error;
        served_by = upstream;
        degraded = false;
      })

-- The three tests of a retry, of which the second and the third are made only after the one before.
unfoldable pub grant : Config → Gateway → Request → ℕ → ℕ → Gateway × Bool
grant c g req now_ms backoff =
    let wanted =
      Budget.should_retry c.retry g.retry_planner req.attempts now_ms req.deadline_ms backoff in
    let paid = Budget.allow g.retry_budget in
    if not c.retry_enabled
    then (g, false)
    else if wanted.1
    then (record g { retry_planner = wanted.0; retry_budget = paid.0 }, paid.1)
    else (record g { retry_planner = wanted.0 }, false)

-- `_on_upstream_failure`, of the call with this number.
unfoldable pub on_upstream_failure : Config → Env → Gateway → Request → ℕ → ℕ → Gateway
on_upstream_failure c env g req now_ms call =
    let granted =
      grant c g req now_ms (Budget.backoff_ms c.retry (env.backoff call) req.attempts) in
    if granted.1
    then requeue c env granted.0 (retry_of req) now_ms
    else give_up c env granted.0 req now_ms

unfoldable pub wait_since : ℕ → Option ℕ → ℕ
wait_since now_ms none = 0
wait_since now_ms (some at_ms) = now_ms - at_ms

-- `_submit`.
unfoldable pub submit : Config → Env → Gateway → Request → ℕ → Gateway
submit c env g req now_ms =
    let call = g.call_seq + 1 in
    let g' : Gateway = record g {
      semaphore = (Semaphore.try_acquire g.semaphore).0;
      call_seq = call;
      enqueued_at = erase req.request_id g.enqueued_at;
      queue_wait_ms =
          insert req.request_id (wait_since now_ms (lookup req.request_id g.enqueued_at))
            g.queue_wait_ms;
      counters = record g.counters {
        dispatched = g.counters.dispatched + 1;
        upstream_calls = g.counters.upstream_calls + 1;
      };
    } in
    if env.accepts call
    then record g' {
      inflight =
          insert call
            (record {
              req = req;
              started_ms = now_ms;
              degrade = req.degrade && c.admission.degrade_enabled;
            })
            g'.inflight;
    }
    else on_upstream_failure c env
        (record g' {
          semaphore = Semaphore.release g'.semaphore;
          counters = record g'.counters { upstream_429 = g'.counters.upstream_429 + 1 };
        })
        req now_ms call

-- A completion that succeeded.
unfoldable pub on_success : Config → Env → Gateway → InFlight → ℕ → ℕ → Gateway
on_success c env g flight call now_ms =
    let n = g.counters in
    let g' : Gateway = record g {
      breaker = Breaker.record_result c.breaker g.breaker true now_ms;
      retry_budget = Budget.on_success g.retry_budget;
      admission = record g.admission {
        estimator = Admission.observe_completion g.admission.estimator now_ms;
      };
      counters =
          if flight.degrade
          then record n { completed_degraded = n.completed_degraded + 1 }
          else record n { completed_ok = n.completed_ok + 1 };
    } in
    if leb flight.req.deadline_ms now_ms
    then finish c env
        (record g' {
          counters = record g'.counters { inflight_timeout = g'.counters.inflight_timeout + 1 };
        })
        flight.req now_ms expired
    else finish c env
        (record g' {
          cache =
              if Cache.enabled c.cache
              then Cache.store c.cache g'.cache flight.req now_ms (env.jitter call)
              else g'.cache;
        })
        flight.req now_ms
        (record {
          status = if flight.degrade then degraded else ok;
          reason = none;
          served_by = upstream;
          degraded = flight.degrade;
        })

unfoldable pub on_upstream_done : Config → Env → Gateway → ℕ → Bool → ℕ → Gateway
on_upstream_done c env g call succeeded now_ms = elim (lookup call g.inflight) [
  | none ↦ g
  | some flight ↦
      let g' : Gateway = record g {
        inflight = erase call g.inflight;
        semaphore = Semaphore.release g.semaphore;
      } in
      if succeeded
      then on_success c env g' flight call now_ms
      else on_upstream_failure c env
          (record g' { breaker = Breaker.record_result c.breaker g'.breaker false now_ms })
          flight.req now_ms call
]
