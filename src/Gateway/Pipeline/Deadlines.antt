-- ===== src/Gateway/Pipeline/Deadlines.antt =====
-- No request in the gateway has a deadline that no arrival had.
pub mod Upstream
use agent_learn.Base.{
  ℕ, zero, suc, ◌+◌, ◌≤◌, ◌<◌, ◌≡◌, refl, sym, ap, subst, ◌∙◌, inl, inr, Bool, true, false, Option,
  none, some, List, [], ◌∷◌, arith, length, lookup, insert, erase, All, insert-All, erase-All,
  lookup-All, leb, ltb, ◌==◌, Bool-cases, Option-cases, if◌then◌else◌, not, ◌&&◌,
}
use agent_learn.Gateway.Request.{Request, RejectReason}
use agent_learn.Gateway.Limiter.{check}
use agent_learn.Gateway.Breaker.{allow}
use agent_learn.Gateway.Cache.{enabled, lookup_tiers, negative_hit}
use agent_learn.Gateway.Coalescer.{complete, join}
use agent_learn.Gateway.Admission.{decide}
use agent_learn.Gateway.Budget.{backoff_ms, should_retry}
use agent_learn.Gateway.Scheduler.{
  Scheduler, enqueue, pop, sweep_expired, sift, sift_all, request_eq,
}
use agent_learn.Gateway.Scheduler.Weight.{
  weigh_all, Respects, enqueue-weight, pop-weight, sweep_expired-weight,
}
use agent_learn.Gateway.Pipeline.State.{Config, Env, InFlight, Gateway, Verdict, new}
use agent_learn.Gateway.Pipeline.Finish.{
  shared, finish, reject, hit_cache, expired, emit, emit_all, release_riders, drop_named,
}
use agent_learn.Gateway.Pipeline.Arrival.{
  lead, queue_up, admission, merge, ask_negative, ask_cache, ask_breaker, handle,
}
use agent_learn.Gateway.Pipeline.Upstream.{
  retry_of, requeue, give_up, grant, on_upstream_failure, submit, on_success, on_upstream_done,
}
use agent_learn.Gateway.Pipeline.{
  dispatch_one, dispatch, finish_swept, maybe_sweep, maybe_autoscale, tick,
}
use agent_learn.Gateway.Pipeline.Rounds.{finish-scheduler, enqueue-refused, grant-scheduler}

emit_all-inflight :
    (g : Gateway) (reqs : List Request) (now_ms : ℕ) (v : Verdict)
    → (emit_all g reqs now_ms v).inflight ≡ g.inflight
unfolding emit_all emit
emit_all-inflight g [] now_ms v = refl
emit_all-inflight g (r ∷ reqs) now_ms v = emit_all-inflight (emit g r now_ms v) reqs now_ms v

-- One for a deadline beyond `top`.
abbrev pub over : ℕ → Request → ℕ
over top r = if ltb top r.deadline_ms then 1 else 0

pub over-Respects : (top : ℕ) → Respects (over top)
unfolding request_eq
over-Respects top a b h = ground (arith, h)

abbrev pub Soon : ℕ → Gateway → Type 0
Soon top g =
    (weigh_all (over top) g.scheduler.queues ≡ 0) × All (λ f. over top f.1.req ≡ 0) g.inflight

module _ (c : Config) (env : Env) (unnamed : (id : ℕ) → env.call_named id ≡ none) where
  pub finish-inflight :
      (g : Gateway) (req : Request) (now_ms : ℕ) (v : Verdict)
      → (finish c env g req now_ms v).inflight ≡ g.inflight
  unfolding finish emit release_riders drop_named
  finish-inflight g req now_ms v = elim (Option-cases (lookup req.request_id g.leader_key)) [
    | inl e ↦ rw (e, finish) refl
    | inr (key, e) ↦ elim (Bool-cases c.coalescing_enabled) [
      | inl on ↦
          rw (e, on, finish, unnamed)
            (emit_all-inflight _ (complete g.coalescer key).1 now_ms (shared v v.status))
      | inr off ↦ rw (e, off, finish) refl
    ]
  ]

  module _ (top : ℕ) where
    pub finish-Soon :
        (g : Gateway) (req : Request) (now_ms : ℕ) (v : Verdict)
        → Soon top g
        → Soon top (finish c env g req now_ms v)
    finish-Soon g req now_ms v (queues, flights) = (
      ap (λ s. weigh_all (over top) s.queues) (finish-scheduler c env g req now_ms v) ∙ queues,
      subst (λ m. All (λ f. over top f.1.req ≡ 0) m) (sym (finish-inflight g req now_ms v)) flights,
    )

    lead-Soon :
        (g : Gateway) (req : Request) (now_ms : ℕ) → Soon top g → Soon top (lead c g req now_ms)
    unfolding lead
    lead-Soon g req now_ms soon = elim (Bool-cases (c.coalescing_enabled && req.coalescable)) [
      | inr off ↦ rw (off, lead) soon
      | inl on ↦ rw (on, lead) soon
    ]

    queue_up-Soon :
        (g : Gateway) (req : Request) (now_ms : ℕ)
        → over top req ≡ 0
        → Soon top g
        → Soon top (queue_up c env g req now_ms)
    unfolding queue_up reject
    queue_up-Soon g req now_ms o (queues, flights) =
        let queued = enqueue g.scheduler req in
        elim (Bool-cases queued.1) [
          | inl e ↦
              let more = enqueue-weight (over top) g.scheduler req e in
              rw (e, queue_up)
                (lead-Soon (record g { scheduler = queued.0 }) req now_ms (omega arith, flights))
          | inr e ↦
              let same = ap (weigh_all (over top)) (enqueue-refused c env g.scheduler req e) in
              rw (e, queue_up) (finish-Soon _ req now_ms _ (omega arith, flights))
        ]

    over-degrade :
        (req : Request) (d : Bool)
        → over top (if d then record req { degrade = true } else req) ≡ over top req
    over-degrade req true = refl
    over-degrade req false = refl

    admission-Soon :
        (g : Gateway) (req : Request) (now_ms : ℕ)
        → over top req ≡ 0
        → Soon top g
        → Soon top (admission c env g req now_ms)
    unfolding admission reject
    admission-Soon g req now_ms o soon =
        let decided = decide c.admission g.admission req now_ms g.scheduler.depth false in
        elim (Bool-cases decided.1.allow) [
          | inl e ↦
              rw (e, admission)
                (queue_up-Soon _ _ now_ms (over-degrade req decided.1.degrade ∙ o) soon)
          | inr e ↦ rw (e, admission) (finish-Soon _ req now_ms _ soon)
        ]

    merge-Soon :
        (g : Gateway) (req : Request) (now_ms : ℕ)
        → over top req ≡ 0
        → Soon top g
        → Soon top (merge c env g req now_ms)
    unfolding merge
    merge-Soon g req now_ms o soon =
        elim (Bool-cases (c.coalescing_enabled && (join g.coalescer req).1)) [
          | inl e ↦ rw (e, merge) soon
          | inr e ↦ rw (e, merge) (admission-Soon g req now_ms o soon)
        ]

    ask_cache-Soon :
        (g : Gateway) (req : Request) (now_ms : ℕ)
        → over top req ≡ 0
        → Soon top g
        → Soon top (ask_cache c env g req now_ms)
    unfolding ask_cache ask_negative hit_cache
    ask_cache-Soon g req now_ms o soon =
        let found = lookup_tiers c.cache g.cache req now_ms in
        elim (Option-cases found.1) [
          | inr (served_by, e) ↦ rw (e, ask_cache) (finish-Soon _ req now_ms _ soon)
          | inl e ↦ elim (Bool-cases (negative_hit found.0 req now_ms).1) [
            | inl hit ↦ rw (e, hit, ask_cache, ask_negative) (finish-Soon _ req now_ms _ soon)
            | inr miss ↦ rw (e, miss, ask_cache, ask_negative) (merge-Soon _ req now_ms o soon)
          ]
        ]

    pub handle-Soon :
        (g : Gateway) (req : Request) (now_ms : ℕ)
        → over top req ≡ 0
        → Soon top g
        → Soon top (handle c env g req now_ms)
    unfolding handle ask_breaker reject
    handle-Soon g req now_ms o soon = elim (Option-cases (check c.limits g.limiters req now_ms).1) [
      | inr (reason, e) ↦ rw (e, handle) (finish-Soon _ req now_ms _ soon)
      | inl e ↦ elim (Bool-cases (allow c.breaker g.breaker now_ms).1) [
        | inr shut ↦ rw (e, shut, handle, ask_breaker) (finish-Soon _ req now_ms _ soon)
        | inl through ↦ elim (Bool-cases (enabled c.cache)) [
          | inl on ↦ rw (e, through, on, handle, ask_breaker) (ask_cache-Soon _ req now_ms o soon)
          | inr off ↦ rw (e, through, off, handle, ask_breaker) (merge-Soon _ req now_ms o soon)
        ]
      ]
    ]
