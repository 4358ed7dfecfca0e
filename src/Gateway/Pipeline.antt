-- ===== src/Gateway/Pipeline.antt =====
-- app/gateway/gateway.py, `Gateway`: the eleven stages of a request, from its arrival to its outcome.
-- The sink of the outcomes is the list `outcomes`, the newest last. What the upstream answers to a
-- call and what the generator of random numbers draws are the fields of `Env`, by the number of the
-- call: `call_seq` goes up before each call, and a call fails or ends once. The keys of `inflight`
-- are the numbers in `call_<n>`; `call_named` says which of them a request's identifier spells.
pub mod State
pub mod Finish
pub mod Arrival
pub mod Upstream
pub mod Ledger
pub mod Entry
pub mod Dispatch
pub mod Rounds
pub mod Run
pub mod Deadlines
pub mod Drain
use agent_learn.Base.{
  zero, suc, max, ◌==◌, ◌^◌, ℕ, ◌+◌, ◌-◌, Bool, true, false, not, ◌&&◌, Option, none, some, List,
  [], ◌∷◌, ◌++◌, ltb, leb, if◌then◌else◌, length, lookup, insert, erase,
}
use agent_learn.Gateway.Request.{
  Request, Priority, batch, free, standard, interactive, critical, RejectReason, circuit_open,
  queue_full, upstream_error, ServedBy, upstream, cache_l1, cache_l2, cache_semantic, coalesced,
  Outcome, ok, degraded, rejected, timeout, failed,
}
use agent_learn.Gateway.Limiter
use agent_learn.Gateway.Breaker
use agent_learn.Gateway.Cache
use agent_learn.Gateway.Coalescer
use agent_learn.Gateway.Admission
use agent_learn.Gateway.Scheduler
use agent_learn.Gateway.Scheduler.Weight.{weigh_all}
use agent_learn.Gateway.Semaphore
use agent_learn.Gateway.Budget
use agent_learn.Gateway.Pipeline.State.{
  Config, Env, InFlight, Counters, OutcomeRecord, Verdict, Gateway,
}
use agent_learn.Gateway.Pipeline.Finish.{finish, reject, hit_cache, expired, emit, emit_all}
use agent_learn.Gateway.Pipeline.Upstream.{submit}

-- A request that left the queue, in `_dispatch`.
unfoldable pub dispatch_one : Config → Env → Gateway → Request → ℕ → Gateway
dispatch_one c env g req now_ms =
    if leb req.deadline_ms now_ms
    then finish c env
        (record g {
          counters = record g.counters { dispatch_expired = g.counters.dispatch_expired + 1 };
        })
        req now_ms expired
    else submit c env g req now_ms

-- `_dispatch`, of which each round takes a unit of fuel.
unfoldable pub dispatch : Config → Env → ℕ → Gateway → ℕ → Gateway
dispatch c env zero g now_ms = g
dispatch c env (suc fuel) g now_ms =
    let popped = Scheduler.pop g.scheduler now_ms in
    let g' : Gateway = record g { scheduler = popped.0 } in
    elim (ltb g.semaphore.inflight g.semaphore.limit) [
      | false ↦ g
      | true ↦ elim popped.1 [
        | none ↦ g'
        | some req ↦ dispatch c env fuel (dispatch_one c env g' req now_ms) now_ms
      ]
    ]

-- The rounds that a request can still take: one, and one for each retry that it is allowed.
abbrev pub rounds_of : Config → Request → ℕ
rounds_of c r = max 1 (c.retry.retry_max_attempts - r.attempts)

-- The loop over the requests that `sweep_expired` handed back.
unfoldable pub finish_swept : Config → Env → Gateway → List Request → ℕ → Gateway
finish_swept c env g [] now_ms = g
finish_swept c env g (req ∷ reqs) now_ms =
    finish_swept c env
      (finish c env
        (record g { counters = record g.counters { swept_timeout = g.counters.swept_timeout + 1 } })
        req now_ms expired)
      reqs now_ms

-- `_maybe_sweep`.
unfoldable pub maybe_sweep : Config → Env → Gateway → ℕ → Gateway
maybe_sweep c env g now_ms =
    let swept = Scheduler.sweep_expired g.scheduler now_ms in
    if not c.sweep_expired
    then g
    else if ltb now_ms (g.last_sweep_ms + c.sweep_interval_ms)
    then g
    else finish_swept c env (record g { last_sweep_ms = now_ms; scheduler = swept.0 }) swept.1
        now_ms

-- `tick`. Each round of the dispatch takes a request from the queue, and may put a retry back.
unfoldable pub tick : Config → Env → Gateway → ℕ → Gateway
tick c env g now_ms =
    let swept = maybe_sweep c env g now_ms in
    dispatch c env (weigh_all (rounds_of c) swept.scheduler.queues + 1) swept now_ms

-- The loops of `drain_pending` over requests that are finished.
unfoldable pub finish_all : Config → Env → Gateway → List Request → ℕ → Gateway
finish_all c env g [] now_ms = g
finish_all c env g (req ∷ reqs) now_ms =
    finish_all c env (finish c env g req now_ms expired) reqs now_ms

unfoldable pub requests_of : List (ℕ × InFlight) → List Request
requests_of [] = []
requests_of ((call, flight) ∷ rest) = flight.req ∷ requests_of rest

-- `drain_pending`, and the number that it returns.
unfoldable pub drain_pending : Config → Env → Gateway → ℕ → Gateway × ℕ
drain_pending c env g now_ms =
    let swept = Scheduler.sweep_expired g.scheduler (2 ^ 62) in
    let one = finish_all c env (record g { scheduler = swept.0 }) swept.1 now_ms in
    let flying = requests_of one.inflight in
    let two = finish_all c env one flying now_ms in
    let orphaned = Coalescer.drain_all two.coalescer in
    (
      emit_all (record two { inflight = []; coalescer = orphaned.0 }) orphaned.1 now_ms expired,
      length swept.1 + length flying + length orphaned.1,
    )

-- `maybe_autoscale`.
unfoldable pub maybe_autoscale : Gateway → Option ℕ → Gateway
maybe_autoscale g none = g
maybe_autoscale g (some limit) =
    if limit == g.semaphore.limit
    then g
    else record g { semaphore = Semaphore.set_limit g.semaphore limit }
