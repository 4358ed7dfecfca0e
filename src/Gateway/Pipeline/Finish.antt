-- ===== src/Gateway/Pipeline/Finish.antt =====
-- app/gateway/gateway.py: the one exit of a request, `_finish`, and the calls of it that the stages
-- share.
use agent_learn.Base.{
  ℕ, ◌+◌, ◌-◌, false, Option, none, some, List, [], ◌∷◌, ◌++◌, if◌then◌else◌, lookup, erase,
}
use agent_learn.Gateway.Request.{
  Request, RejectReason, ServedBy, upstream, cache_l1, cache_l2, coalesced, Outcome, ok, degraded,
  rejected, timeout, failed,
}
use agent_learn.Gateway.Coalescer
use agent_learn.Gateway.Pipeline.State.{Config, Env, InFlight, Counters, Verdict, Gateway}

-- `get(key, 0)` after a `pop`.
abbrev wait_of : ℕ → List (ℕ × ℕ) → ℕ
wait_of id dict = elim (lookup id dict) [ none ↦ 0 | some ms ↦ ms ]

-- `_emit`.
unfoldable pub emit : Gateway → Request → ℕ → Verdict → Gateway
emit g req now_ms v = record g {
  enqueued_at = erase req.request_id g.enqueued_at;
  queue_wait_ms = erase req.request_id g.queue_wait_ms;
  outcomes =
      g.outcomes
      ++ record {
        request_id = req.request_id;
        tenant_id = req.tenant_id;
        priority = req.priority;
        status = v.status;
        reason = v.reason;
        served_by = v.served_by;
        latency_ms = now_ms - req.arrived_ms;
        queue_ms = wait_of req.request_id g.queue_wait_ms;
        attempts = req.attempts;
        degraded = v.degraded;
        arrived_ms = req.arrived_ms;
        finished_ms = now_ms;
      }
        ∷ [];
}

-- A rider shares the verdict; one that was served counts as merged.
abbrev pub shared : Verdict → Outcome → Verdict
shared v ok = record v { served_by = coalesced }
shared v degraded = record v { served_by = coalesced }
shared v rejected = v
shared v timeout = v
shared v failed = v

unfoldable pub emit_all : Gateway → List Request → ℕ → Verdict → Gateway
emit_all g [] now_ms v = g
emit_all g (rider ∷ riders) now_ms v = emit_all (emit g rider now_ms v) riders now_ms v

-- `self._inflight.pop(req.request_id, None)`.
unfoldable pub drop_named : Option ℕ → List (ℕ × InFlight) → List (ℕ × InFlight)
drop_named none dict = dict
drop_named (some call) dict = erase call dict

-- The second half of `_finish`, for the leader of the flight of `key`.
unfoldable pub release_riders : Env → Gateway → Request → ℕ → ℕ → Verdict → Gateway
release_riders env g req key now_ms v =
    let done = Coalescer.complete g.coalescer key in
    let g' = emit_all (record g { coalescer = done.0 }) done.1 now_ms (shared v v.status) in
    record g' { inflight = drop_named (env.call_named req.request_id) g'.inflight }

-- `_finish`.
unfoldable pub finish : Config → Env → Gateway → Request → ℕ → Verdict → Gateway
finish c env g req now_ms v =
    let emitted = emit g req now_ms v in
    let g' : Gateway = record emitted { leader_key = erase req.request_id emitted.leader_key } in
    elim (lookup req.request_id g.leader_key) [
      | none ↦ g'
      | some key ↦ if c.coalescing_enabled then release_riders env g' req key now_ms v else g'
    ]

-- `_reject`.
unfoldable pub reject : Config → Env → Gateway → Request → Option RejectReason → ℕ → Gateway
reject c env g req reason now_ms =
    finish c env (record g { counters = record g.counters { rejected = g.counters.rejected + 1 } })
      req now_ms
      (record { status = rejected; reason = reason; served_by = upstream; degraded = false })

unfoldable pub count_hit : Counters → ServedBy → Counters
count_hit n cache_l1 = record n { cache_hit_l1 = n.cache_hit_l1 + 1 }
count_hit n cache_l2 = record n { cache_hit_l2 = n.cache_hit_l2 + 1 }
count_hit n _ = record n { cache_hit_semantic = n.cache_hit_semantic + 1 }

-- `_hit_cache`.
unfoldable pub hit_cache : Config → Env → Gateway → Request → ServedBy → ℕ → Gateway
hit_cache c env g req served_by now_ms =
    finish c env (record g { counters = count_hit g.counters served_by }) req now_ms
      (record { status = ok; reason = none; served_by = served_by; degraded = false })

abbrev pub expired : Verdict
expired = record { status = timeout; reason = none; served_by = upstream; degraded = false }
