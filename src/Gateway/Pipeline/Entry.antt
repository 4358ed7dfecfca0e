-- ===== src/Gateway/Pipeline/Entry.antt =====
-- A request that arrives is pending, or has its outcome, when `handle` returns.
use agent_learn.Base.{
  ℕ, ◌+◌, ◌≡◌, refl, sym, subst, inl, inr, Bool, true, false, none, some, arith, lookup, Unique,
  Bool-cases, Option-cases, if◌then◌else◌, ◌&&◌,
}
use agent_learn.Gateway.Request.{Request, queue_full, circuit_open}
use agent_learn.Gateway.Coalescer.{Flight, Coalescer, join, board, start}
use agent_learn.Gateway.Coalescer.Riders.{waiting, board-Kept, start-Kept}
use agent_learn.Gateway.Scheduler.{enqueue}
use agent_learn.Gateway.Scheduler.Weight.{weigh, enqueue-weigh}
use agent_learn.Gateway.Limiter.{check}
use agent_learn.Gateway.Breaker.{allow}
use agent_learn.Gateway.Cache.{enabled, lookup_tiers, negative_hit}
use agent_learn.Gateway.Admission.{decide}
use agent_learn.Gateway.Pipeline.State.{Config, Env, Gateway}
use agent_learn.Gateway.Pipeline.Finish.{hit_cache, count_hit}
use agent_learn.Gateway.Pipeline.Arrival.{
  lead, queue_up, admission, merge, ask_negative, ask_cache, ask_breaker, handle,
}
use agent_learn.Gateway.Pipeline.Ledger.{by_id, Holds, finish-Holds, reject-Holds}

-- A request that did not join has no flight to join, if it may be merged.
join-refused :
    (c : Coalescer) (req : Request)
    → (join c req).1 ≡ false
    → ((join c req).0 ≡ c) × (req.coalescable ≡ true → lookup req.cache_key c.inflight ≡ none)
unfolding join board
join-refused c req h = elim (Bool-cases req.coalescable) [
  | inr off ↦ rw (off, join) (refl, λ on. absurd (ground (arith, on, off)))
  | inl on ↦ elim (Option-cases (lookup req.cache_key c.inflight)) [
    | inl e ↦ rw (on, e, join) (refl, λ _. refl)
    | inr (f, e) ↦ absurd (ground (arith, simp (on, e) at h))
  ]
]

join-board :
    (c : Coalescer) (req : Request) (f : Flight)
    → req.coalescable ≡ true
    → lookup req.cache_key c.inflight ≡ some f
    → join c req ≡ board c req (some f)
unfolding join
join-board c req f on e = simp (on, e)

join-boards :
    (f : Request → ℕ) (c : Coalescer) (req : Request)
    → (join c req).1 ≡ true
    → Unique c.inflight
    → Unique (join c req).0.inflight × (waiting f (join c req).0 ≡ waiting f c + f req)
unfolding join board weigh
join-boards f c req h u = elim (Bool-cases req.coalescable) [
  | inr off ↦ absurd (ground (arith, rw (off) at h))
  | inl on ↦ elim (Option-cases (lookup req.cache_key c.inflight)) [
    | inl e ↦ absurd (ground (arith, simp (on, e) at h))
    | inr (x, e) ↦
        let kept = board-Kept f c req u x e in
        subst (λ out. Unique out.0.inflight × (waiting f out.0 ≡ waiting f c + f req))
          (sym (join-board c req x on e)) (kept.0, omega (arith, kept.1))
  ]
]

module _ (weight : ℕ → ℕ) (c : Config) (env : Env)
    (unnamed : (id : ℕ) → env.call_named id ≡ none) where
  -- The request can start a flight of its own, if it is to.
  abbrev Free : Gateway → Request → Type 0
  Free g req =
      c.coalescing_enabled && req.coalescable ≡ true
      → lookup req.cache_key g.coalescer.inflight ≡ none

  lead-Holds :
      (g : Gateway) (req : Request) (now_ms n : ℕ)
      → Free g req
      → Holds weight n g
      → Holds weight n (lead c g req now_ms)
  unfolding lead start weigh
  lead-Holds g req now_ms n free (u, w, fresh, slots, sum) =
      elim (Bool-cases (c.coalescing_enabled && req.coalescable)) [
        | inr off ↦ rw (off, lead) (u, w, fresh, slots, sum)
        | inl on ↦
            let kept = start-Kept (by_id weight) g.coalescer req now_ms u (free on) in
            rw (on, lead) (kept.0, w, fresh, slots, omega (arith, kept.1))
      ]

  queue_up-Holds :
      (g : Gateway) (req : Request) (now_ms n : ℕ)
      → Free g req
      → Holds weight n g
      → Holds weight (n + weight req.request_id) (queue_up c env g req now_ms)
  unfolding queue_up
  queue_up-Holds g req now_ms n free h =
      let queued = enqueue g.scheduler req in
      let more = enqueue-weigh (by_id weight) g.scheduler req in
      elim (Bool-cases queued.1) [
        | inl e ↦
            let one = rw e at more in
            rw (e, queue_up)
              (lead-Holds (record g { scheduler = queued.0 }) req now_ms (n + weight req.request_id)
                free (h.0, h.1, h.2, h.3, omega (arith, h.4)))
        | inr e ↦
            let same = rw e at more in
            rw (e, queue_up)
              (reject-Holds weight c env unnamed
                (record g {
                  scheduler = queued.0;
                  counters = record g.counters { queue_full = g.counters.queue_full + 1 };
                })
                req (some queue_full) now_ms n (h.0, h.1, h.2, h.3, omega (arith, h.4)))
      ]

  -- A mark on the request is no concern of the flights.
  Free-degrade :
      (g : Gateway) (req : Request) (d : Bool)
      → Free g req
      → Free g (if d then record req { degrade = true } else req)
  Free-degrade g req true free = free
  Free-degrade g req false free = free

  id-degrade :
      (req : Request) (d : Bool)
      → (if d then record req { degrade = true } else req).request_id ≡ req.request_id
  id-degrade req true = refl
  id-degrade req false = refl

  admission-Holds :
      (g : Gateway) (req : Request) (now_ms n : ℕ)
      → Free g req
      → Holds weight n g
      → Holds weight (n + weight req.request_id) (admission c env g req now_ms)
  unfolding admission
  admission-Holds g req now_ms n free h =
      let decided = decide c.admission g.admission req now_ms g.scheduler.depth false in
      let g' : Gateway = record g { admission = decided.0 } in
      elim (Bool-cases decided.1.allow) [
        | inl e ↦
            rw (e, admission)
              (subst
                (λ id. Holds weight (n + weight id) (
                  queue_up c env g'
                    (if decided.1.degrade then record req { degrade = true } else req) now_ms))
                (id-degrade req decided.1.degrade)
                (queue_up-Holds g'
                  (if decided.1.degrade then record req { degrade = true } else req) now_ms n
                  (Free-degrade g req decided.1.degrade free) h))
        | inr e ↦
            rw (e, admission) (reject-Holds weight c env unnamed g' req decided.1.reason now_ms n h)
      ]

  merge-Holds :
      (g : Gateway) (req : Request) (now_ms n : ℕ)
      → Holds weight n g
      → Holds weight (n + weight req.request_id) (merge c env g req now_ms)
  unfolding merge
  merge-Holds g req now_ms n h =
      let joined = join g.coalescer req in
      elim (Bool-cases (c.coalescing_enabled && joined.1)) [
        | inl e ↦
            let on : joined.1 ≡ true = ground (arith, e) in
            let boards = join-boards (by_id weight) g.coalescer req on h.0 in
            rw (e, merge) (boards.0, h.1, h.2, h.3, omega (arith, h.4, boards.1))
        | inr e ↦
            let free : Free g req = λ may.
              (join-refused g.coalescer req (ground (arith, e, may))).1 (ground (arith, may)) in
            rw (e, merge) (admission-Holds g req now_ms n free h)
      ]

  ask_negative-Holds :
      (g : Gateway) (req : Request) (now_ms n : ℕ)
      → Holds weight n g
      → Holds weight (n + weight req.request_id) (ask_negative c env g req now_ms)
  unfolding ask_negative
  ask_negative-Holds g req now_ms n h =
      let hit = negative_hit g.cache req now_ms in
      let g' : Gateway = record g { cache = hit.0 } in
      elim (Bool-cases hit.1) [
        | inl e ↦ rw (e, ask_negative) (finish-Holds weight c env unnamed g' req now_ms _ n h)
        | inr e ↦ rw (e, ask_negative) (merge-Holds g' req now_ms n h)
      ]

  ask_cache-Holds :
      (g : Gateway) (req : Request) (now_ms n : ℕ)
      → Holds weight n g
      → Holds weight (n + weight req.request_id) (ask_cache c env g req now_ms)
  unfolding ask_cache hit_cache
  ask_cache-Holds g req now_ms n h =
      let found = lookup_tiers c.cache g.cache req now_ms in
      let g' : Gateway = record g { cache = found.0 } in
      elim (Option-cases found.1) [
        | inl e ↦ rw (e, ask_cache) (ask_negative-Holds g' req now_ms n h)
        | inr (served_by, e) ↦
            rw (e, ask_cache)
              (finish-Holds weight c env unnamed
                (record g' { counters = count_hit g.counters served_by }) req now_ms _ n h)
      ]

  ask_breaker-Holds :
      (g : Gateway) (req : Request) (now_ms n : ℕ)
      → Holds weight n g
      → Holds weight (n + weight req.request_id) (ask_breaker c env g req now_ms)
  unfolding ask_breaker
  ask_breaker-Holds g req now_ms n h =
      let allowed = allow c.breaker g.breaker now_ms in
      let g' : Gateway = record g { breaker = allowed.0 } in
      elim (Bool-cases allowed.1) [
        | inr e ↦
            rw (e, ask_breaker)
              (reject-Holds weight c env unnamed g' req (some circuit_open) now_ms n h)
        | inl e ↦ elim (Bool-cases (enabled c.cache)) [
          | inl on ↦ rw (e, on, ask_breaker) (ask_cache-Holds g' req now_ms n h)
          | inr off ↦ rw (e, off, ask_breaker) (merge-Holds g' req now_ms n h)
        ]
      ]

  pub handle-Holds :
      (g : Gateway) (req : Request) (now_ms n : ℕ)
      → Holds weight n g
      → Holds weight (n + weight req.request_id) (handle c env g req now_ms)
  unfolding handle
  handle-Holds g req now_ms n h =
      let checked = check c.limits g.limiters req now_ms in
      let g' : Gateway = record g {
        limiters = checked.0;
        counters = record g.counters { arrived = g.counters.arrived + 1 };
      } in
      elim (Option-cases checked.1) [
        | inl e ↦ rw (e, handle) (ask_breaker-Holds g' req now_ms n h)
        | inr (reason, e) ↦
            rw (e, handle) (reject-Holds weight c env unnamed g' req (some reason) now_ms n h)
      ]
