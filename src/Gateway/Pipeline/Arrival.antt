-- ===== src/Gateway/Pipeline/Arrival.antt =====
-- app/gateway/gateway.py, `handle`: the stages 2 to 8, each as far as the next one.
use agent_learn.Base.{ℕ, ◌+◌, true, false, not, ◌&&◌, none, some, if◌then◌else◌, insert}
use agent_learn.Gateway.Request.{
  Request, circuit_open, queue_full, upstream_error, cache_l2, failed,
}
use agent_learn.Gateway.Limiter
use agent_learn.Gateway.Breaker
use agent_learn.Gateway.Cache
use agent_learn.Gateway.Coalescer
use agent_learn.Gateway.Admission
use agent_learn.Gateway.Scheduler
use agent_learn.Gateway.Pipeline.State.{Config, Env, Gateway}
use agent_learn.Gateway.Pipeline.Finish.{finish, reject, hit_cache}

-- The end of `handle`, for a request that was queued.
unfoldable pub lead : Config → Gateway → Request → ℕ → Gateway
lead c g req now_ms =
    let g' : Gateway = record g {
      counters = record g.counters { enqueued = g.counters.enqueued + 1 };
      enqueued_at = insert req.request_id now_ms g.enqueued_at;
    } in
    if c.coalescing_enabled && req.coalescable
    then record g' {
      coalescer = Coalescer.start g'.coalescer req now_ms;
      leader_key = insert req.request_id req.cache_key g'.leader_key;
    }
    else g'

-- Stage 8.
unfoldable pub queue_up : Config → Env → Gateway → Request → ℕ → Gateway
queue_up c env g req now_ms =
    let queued = Scheduler.enqueue g.scheduler req in
    let g' : Gateway = record g { scheduler = queued.0 } in
    if queued.1
    then lead c g' req now_ms
    else reject c env
        (record g' { counters = record g.counters { queue_full = g.counters.queue_full + 1 } }) req
        (some queue_full) now_ms

-- Stage 7.
unfoldable pub admission : Config → Env → Gateway → Request → ℕ → Gateway
admission c env g req now_ms =
    let decided = Admission.decide c.admission g.admission req now_ms g.scheduler.depth false in
    let g' : Gateway = record g { admission = decided.0 } in
    if decided.1.allow
    then queue_up c env g' (if decided.1.degrade then record req { degrade = true } else req) now_ms
    else reject c env g' req decided.1.reason now_ms

-- Stage 6.
unfoldable pub merge : Config → Env → Gateway → Request → ℕ → Gateway
merge c env g req now_ms =
    let joined = Coalescer.join g.coalescer req in
    if c.coalescing_enabled && joined.1
    then record g {
      coalescer = joined.0;
      counters = record g.counters { coalesced = g.counters.coalesced + 1 };
    }
    else admission c env g req now_ms

-- The negative part of stage 5.
unfoldable pub ask_negative : Config → Env → Gateway → Request → ℕ → Gateway
ask_negative c env g req now_ms =
    let hit = Cache.negative_hit g.cache req now_ms in
    let g' : Gateway = record g { cache = hit.0 } in
    if hit.1
    then finish c env g' req now_ms (record {
      status = failed;
      reason = some upstream_error;
      served_by = cache_l2;
      degraded = false;
    })
    else merge c env g' req now_ms

-- Stage 5.
unfoldable pub ask_cache : Config → Env → Gateway → Request → ℕ → Gateway
ask_cache c env g req now_ms =
    let found = Cache.lookup_tiers c.cache g.cache req now_ms in
    let g' : Gateway = record g { cache = found.0 } in
    elim found.1 [
      | some served_by ↦ hit_cache c env g' req served_by now_ms
      | none ↦ ask_negative c env g' req now_ms
    ]

-- Stage 4.
unfoldable pub ask_breaker : Config → Env → Gateway → Request → ℕ → Gateway
ask_breaker c env g req now_ms =
    let allowed = Breaker.allow c.breaker g.breaker now_ms in
    let g' : Gateway = record g { breaker = allowed.0 } in
    if not allowed.1
    then reject c env g' req (some circuit_open) now_ms
    else if Cache.enabled c.cache
    then ask_cache c env g' req now_ms
    else merge c env g' req now_ms

unfoldable pub handle : Config → Env → Gateway → Request → ℕ → Gateway
handle c env g req now_ms =
    let checked = Limiter.check c.limits g.limiters req now_ms in
    let g' : Gateway = record g {
      limiters = checked.0;
      counters = record g.counters { arrived = g.counters.arrived + 1 };
    } in
    elim checked.1 [
      | some reason ↦ reject c env g' req (some reason) now_ms
      | none ↦ ask_breaker c env g' req now_ms
    ]
