-- ===== src/Gateway/Pipeline/Rounds.antt =====
-- The dispatch loop stops by itself.
use agent_learn.Base.{
  ℕ, zero, suc, ◌+◌, ◌≤◌, ◌<◌, ◌≡◌, refl, sym, ap, subst, ◌⊎◌, inl, inr, true, false, none, List,
  [], ◌∷◌, arith, lookup, Bool-cases, Option-cases, not, leb, ltb,
}
use agent_learn.Gateway.Request.{Request}
use agent_learn.Gateway.Scheduler.{Scheduler, enqueue, pop, request_eq}
use agent_learn.Gateway.Scheduler.Weight.{weigh_all, Respects, enqueue-weight, pop-weight}
use agent_learn.Gateway.Budget.{backoff_ms, should_retry}
use agent_learn.Gateway.Coalescer.{complete}
use agent_learn.Gateway.Pipeline.State.{Config, Env, Gateway, Verdict}
use agent_learn.Gateway.Pipeline.Finish.{
  finish, release_riders, emit, emit_all, reject, shared, expired,
}
use agent_learn.Gateway.Pipeline.Upstream.{
  retry_of, requeue, give_up, grant, on_upstream_failure, submit,
}
use agent_learn.Gateway.Pipeline.{rounds_of, dispatch_one, dispatch, maybe_sweep, tick}

emit_all-scheduler :
    (g : Gateway) (reqs : List Request) (now_ms : ℕ) (v : Verdict)
    → (emit_all g reqs now_ms v).scheduler ≡ g.scheduler
unfolding emit_all emit
emit_all-scheduler g [] now_ms v = refl
emit_all-scheduler g (r ∷ reqs) now_ms v = emit_all-scheduler (emit g r now_ms v) reqs now_ms v

rounds_of-Respects : (c : Config) → Respects (rounds_of c)
unfolding request_eq
rounds_of-Respects c a b h = ground (arith, h)

module _ (c : Config) (env : Env) where
  abbrev left : Gateway → ℕ
  left g = weigh_all (rounds_of c) g.scheduler.queues

  pub finish-scheduler :
      (g : Gateway) (req : Request) (now_ms : ℕ) (v : Verdict)
      → (finish c env g req now_ms v).scheduler ≡ g.scheduler
  unfolding finish emit release_riders
  finish-scheduler g req now_ms v = elim (Option-cases (lookup req.request_id g.leader_key)) [
    | inl e ↦ rw (e, finish) refl
    | inr (key, e) ↦ elim (Bool-cases c.coalescing_enabled) [
      | inl on ↦
          rw (e, on, finish)
            (emit_all-scheduler _ (complete g.coalescer key).1 now_ms (shared v v.status))
      | inr off ↦ rw (e, off, finish) refl
    ]
  ]

  -- A refused retry leaves the queues as they were.
  pub enqueue-refused :
      (s : Scheduler) (req : Request)
      → (enqueue s req).1 ≡ false
      → (enqueue s req).0.queues ≡ s.queues
  unfolding enqueue
  enqueue-refused s req h = ground (arith, h)

  requeue-left :
      (g : Gateway) (retry : Request) (now_ms : ℕ)
      → left (requeue c env g retry now_ms) ≤ left g + rounds_of c retry
  unfolding requeue reject
  requeue-left g retry now_ms = elim (Bool-cases (enqueue g.scheduler retry).1) [
    | inl e ↦
        let more = enqueue-weight (rounds_of c) g.scheduler retry e in rw (e, requeue) (omega arith)
    | inr e ↦
        let same = ap (weigh_all (rounds_of c)) (enqueue-refused g.scheduler retry e) in
        rw (e, requeue)
          (subst (λ s. weigh_all (rounds_of c) s.queues ≤ left g + rounds_of c retry)
            (sym (finish-scheduler _ retry now_ms _)) (omega arith))
  ]

  pub grant-scheduler :
      (g : Gateway) (req : Request) (now_ms backoff : ℕ)
      → ((grant c g req now_ms backoff).0.scheduler ≡ g.scheduler)
        × ((grant c g req now_ms backoff).1 ≡ true → req.attempts + 1 < c.retry.retry_max_attempts)
  unfolding grant should_retry
  grant-scheduler g req now_ms backoff = elim (Bool-cases (not c.retry_enabled)) [
    | inl e ↦ rw (e, grant) (refl, λ no. absurd (ground (arith, no)))
    | inr e ↦
        elim (Bool-cases
          (should_retry c.retry g.retry_planner req.attempts now_ms req.deadline_ms backoff).1) [
            | inl w ↦ rw (e, w, grant) (refl, λ _. ground (arith, w))
            | inr w ↦ rw (e, w, grant) (refl, λ no. absurd (ground (arith, no)))
          ]
  ]

  on_upstream_failure-left :
      (g : Gateway) (req : Request) (now_ms call : ℕ)
      → left (on_upstream_failure c env g req now_ms call) < left g + rounds_of c req
  unfolding on_upstream_failure give_up retry_of
  on_upstream_failure-left g req now_ms call =
      let backoff = backoff_ms c.retry (env.backoff call) req.attempts in
      let granted = grant c g req now_ms backoff in
      let (same, few) = grant-scheduler g req now_ms backoff in
      let lefts = ap (λ s. weigh_all (rounds_of c) s.queues) same in
      elim (Bool-cases granted.1) [
        | inl e ↦
            let more = requeue-left granted.0 (retry_of req) now_ms in
            let again = few e in rw (e, on_upstream_failure) (omega arith)
        | inr e ↦
            rw (e, on_upstream_failure)
              (subst (λ s. weigh_all (rounds_of c) s.queues < left g + rounds_of c req)
                (sym (finish-scheduler _ req now_ms _)) (omega arith))
      ]

  submit-left :
      (g : Gateway) (req : Request) (now_ms : ℕ)
      → left (submit c env g req now_ms) < left g + rounds_of c req
  unfolding submit
  submit-left g req now_ms = elim (Bool-cases (env.accepts (g.call_seq + 1))) [
    | inl e ↦ rw (e, submit) (omega arith)
    | inr e ↦ rw (e, submit) (on_upstream_failure-left _ req now_ms (g.call_seq + 1))
  ]

  dispatch_one-left :
      (g : Gateway) (req : Request) (now_ms : ℕ)
      → left (dispatch_one c env g req now_ms) < left g + rounds_of c req
  unfolding dispatch_one
  dispatch_one-left g req now_ms = elim (Bool-cases (leb req.deadline_ms now_ms)) [
    | inl e ↦
        rw (e, dispatch_one)
          (subst (λ s. weigh_all (rounds_of c) s.queues < left g + rounds_of c req)
            (sym (finish-scheduler _ req now_ms expired)) (omega arith))
    | inr e ↦ rw (e, dispatch_one) (submit-left g req now_ms)
  ]

  -- The condition of the loop, or the `break`.
  abbrev pub Stopped : Gateway → ℕ → Type 0
  Stopped g now_ms =
      (g.semaphore.limit ≤ g.semaphore.inflight)
      ⊎ ((s : Scheduler) × (((pop s now_ms).1 ≡ none) × (g.scheduler ≡ (pop s now_ms).0)))

  dispatch-Stopped :
      (fuel : ℕ) (g : Gateway) (now_ms : ℕ)
      → left g < fuel
      → Stopped (dispatch c env fuel g now_ms) now_ms
  unfolding dispatch
  dispatch-Stopped zero g now_ms enough = absurd (omega arith)
  dispatch-Stopped (suc fuel) g now_ms enough =
      let popped = pop g.scheduler now_ms in
      let g' : Gateway = record g { scheduler = popped.0 } in
      elim (Bool-cases (ltb g.semaphore.inflight g.semaphore.limit)) [
        | inr full ↦ rw (full, dispatch) (inl (ground (arith, full)))
        | inl room ↦ elim (Option-cases popped.1) [
          | inl e ↦ rw (room, e, dispatch) (inr (g.scheduler, (e, refl)))
          | inr (req, e) ↦
              let less = dispatch_one-left g' req now_ms in
              let weight =
                rw e at (pop-weight (rounds_of c) (rounds_of-Respects c) g.scheduler now_ms) in
              rw (room, e, dispatch)
                (dispatch-Stopped fuel (dispatch_one c env g' req now_ms) now_ms (omega arith))
        ]
      ]

-- From every state, whatever the upstream answers, the rounds that `tick` gives to the dispatch are
-- enough: the loop ends because each slot of the semaphore is taken, or because the scheduler had
-- nobody left to hand out, and never because the rounds are used up.
pub tick-Stopped :
    (c : Config) (env : Env) (g : Gateway) (now_ms : ℕ) → Stopped c env (tick c env g now_ms) now_ms
unfolding tick
tick-Stopped c env g now_ms =
    dispatch-Stopped c env _ (maybe_sweep c env g now_ms) now_ms (omega arith)
