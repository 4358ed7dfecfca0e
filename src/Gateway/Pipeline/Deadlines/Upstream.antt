-- ===== src/Gateway/Pipeline/Deadlines/Upstream.antt =====
-- The deadlines of the requests that go to the upstream and come back.
use agent_learn.Base.{
  ℕ, zero, suc, ◌+◌, ◌≡◌, ap, inl, inr, Bool, none, List, [], ◌∷◌, arith, lookup, insert-All,
  erase-All, lookup-All, leb, ltb, Bool-cases, Option-cases, not,
}
use agent_learn.Gateway.Request.{Request}
use agent_learn.Gateway.Budget.{backoff_ms, should_retry}
use agent_learn.Gateway.Scheduler.{enqueue, pop, sweep_expired}
use agent_learn.Gateway.Scheduler.Weight.{
  weigh_all, enqueue-weight, pop-weight, sweep_expired-weight,
}
use agent_learn.Gateway.Pipeline.State.{Config, Env, InFlight, Gateway}
use agent_learn.Gateway.Pipeline.Finish.{finish, reject, expired}
use agent_learn.Gateway.Pipeline.Upstream.{
  retry_of, requeue, give_up, grant, on_upstream_failure, submit, on_success, on_upstream_done,
}
use agent_learn.Gateway.Pipeline.{dispatch_one, dispatch, finish_swept, maybe_sweep, tick}
use agent_learn.Gateway.Pipeline.Rounds.{enqueue-refused}
use agent_learn.Gateway.Pipeline.Deadlines.{Soon, over, over-Respects, finish-Soon}

module _ (c : Config) (env : Env) (unnamed : (id : ℕ) → env.call_named id ≡ none) (top : ℕ) where
  requeue-Soon :
      (g : Gateway) (retry : Request) (now_ms : ℕ)
      → over top retry ≡ 0
      → Soon top g
      → Soon top (requeue c env g retry now_ms)
  unfolding requeue reject
  requeue-Soon g retry now_ms o (queues, flights) =
      let queued = enqueue g.scheduler retry in
      elim (Bool-cases queued.1) [
        | inl e ↦
            let more = enqueue-weight (over top) g.scheduler retry e in
            rw (e, requeue) (omega arith, flights)
        | inr e ↦
            let same = ap (weigh_all (over top)) (enqueue-refused c env g.scheduler retry e) in
            rw (e, requeue) (finish-Soon c env unnamed top _ retry now_ms _ (omega arith, flights))
      ]

  grant-Soon :
      (g : Gateway) (req : Request) (now_ms backoff : ℕ)
      → Soon top g
      → Soon top (grant c g req now_ms backoff).0
  unfolding grant
  grant-Soon g req now_ms backoff soon = elim (Bool-cases (not c.retry_enabled)) [
    | inl e ↦ rw (e, grant) soon
    | inr e ↦
        elim (Bool-cases
          (should_retry c.retry g.retry_planner req.attempts now_ms req.deadline_ms backoff).1) [
            | inl w ↦ rw (e, w, grant) soon
            | inr w ↦ rw (e, w, grant) soon
          ]
  ]

  on_upstream_failure-Soon :
      (g : Gateway) (req : Request) (now_ms call : ℕ)
      → over top req ≡ 0
      → Soon top g
      → Soon top (on_upstream_failure c env g req now_ms call)
  unfolding on_upstream_failure give_up retry_of
  on_upstream_failure-Soon g req now_ms call o soon =
      let backoff = backoff_ms c.retry (env.backoff call) req.attempts in
      let granted = grant c g req now_ms backoff in
      let soon' = grant-Soon g req now_ms backoff soon in
      elim (Bool-cases granted.1) [
        | inl e ↦ rw (e, on_upstream_failure) (requeue-Soon granted.0 (retry_of req) now_ms o soon')
        | inr e ↦ rw (e, on_upstream_failure) (finish-Soon c env unnamed top _ req now_ms _ soon')
      ]

  submit-Soon :
      (g : Gateway) (req : Request) (now_ms : ℕ)
      → over top req ≡ 0
      → Soon top g
      → Soon top (submit c env g req now_ms)
  unfolding submit
  submit-Soon g req now_ms o (queues, flights) = elim (Bool-cases (env.accepts (g.call_seq + 1))) [
    | inl e ↦
        rw (e, submit)
          (queues, insert-All (λ f. over top f.1.req ≡ 0) (g.call_seq + 1) _ g.inflight o flights)
    | inr e ↦
        rw (e, submit) (on_upstream_failure-Soon _ req now_ms (g.call_seq + 1) o (queues, flights))
  ]

  dispatch_one-Soon :
      (g : Gateway) (req : Request) (now_ms : ℕ)
      → over top req ≡ 0
      → Soon top g
      → Soon top (dispatch_one c env g req now_ms)
  unfolding dispatch_one
  dispatch_one-Soon g req now_ms o soon = elim (Bool-cases (leb req.deadline_ms now_ms)) [
    | inl e ↦ rw (e, dispatch_one) (finish-Soon c env unnamed top _ req now_ms expired soon)
    | inr e ↦ rw (e, dispatch_one) (submit-Soon g req now_ms o soon)
  ]

  dispatch-Soon :
      (fuel : ℕ) (g : Gateway) (now_ms : ℕ) → Soon top g → Soon top (dispatch c env fuel g now_ms)
  unfolding dispatch
  dispatch-Soon zero g now_ms soon = soon
  dispatch-Soon (suc fuel) g now_ms (queues, flights) =
      let popped = pop g.scheduler now_ms in
      let g' : Gateway = record g { scheduler = popped.0 } in
      let weight = pop-weight (over top) (over-Respects top) g.scheduler now_ms in
      elim (Bool-cases (ltb g.semaphore.inflight g.semaphore.limit)) [
        | inr full ↦ rw (full, dispatch) (queues, flights)
        | inl room ↦ elim (Option-cases popped.1) [
          | inl e ↦ rw (room, e, dispatch) (omega (arith, weight), flights)
          | inr (req, e) ↦
              let less = rw e at weight in
              rw (room, e, dispatch)
                (dispatch-Soon fuel (dispatch_one c env g' req now_ms) now_ms (
                  dispatch_one-Soon g' req now_ms (omega (arith, less))
                    (omega (arith, less), flights)))
        ]
      ]

  finish_swept-Soon :
      (reqs : List Request) (g : Gateway) (now_ms : ℕ)
      → Soon top g
      → Soon top (finish_swept c env g reqs now_ms)
  unfolding finish_swept
  finish_swept-Soon [] g now_ms soon = soon
  finish_swept-Soon (r ∷ reqs) g now_ms soon =
      let n = g.counters in
      let first =
        finish c env (record g { counters = record n { swept_timeout = n.swept_timeout + 1 } }) r
          now_ms expired in
      finish_swept-Soon reqs first now_ms (finish-Soon c env unnamed top _ r now_ms expired soon)

  pub tick-Soon : (g : Gateway) (now_ms : ℕ) → Soon top g → Soon top (tick c env g now_ms)
  unfolding tick maybe_sweep sweep_expired
  tick-Soon g now_ms (queues, flights) =
      let swept = sweep_expired g.scheduler now_ms in
      let fewer = sweep_expired-weight (over top) g.scheduler now_ms in
      let after : Soon top (maybe_sweep c env g now_ms) = elim (Bool-cases (not c.sweep_expired)) [
        | inl off ↦ rw (off, maybe_sweep) (queues, flights)
        | inr on ↦ elim (Bool-cases (ltb now_ms (g.last_sweep_ms + c.sweep_interval_ms))) [
          | inl early ↦ rw (on, early, maybe_sweep) (queues, flights)
          | inr due ↦
              rw (on, due, maybe_sweep)
                (finish_swept-Soon swept.1 _ now_ms (omega (arith, fewer), flights))
        ]
      ] in
      dispatch-Soon _ (maybe_sweep c env g now_ms) now_ms after

  pub on_upstream_done-Soon :
      (g : Gateway) (call : ℕ) (succeeded : Bool) (now_ms : ℕ)
      → Soon top g
      → Soon top (on_upstream_done c env g call succeeded now_ms)
  unfolding on_upstream_done on_success
  on_upstream_done-Soon g call succeeded now_ms (queues, flights) =
      elim (Option-cases (lookup call g.inflight)) [
        | inl e ↦ rw (e, on_upstream_done) (queues, flights)
        | inr (flight, e) ↦
            let P : ℕ × InFlight → Type 0 = λ f. over top f.1.req ≡ 0 in
            let rest = erase-All P call g.inflight flights in
            let o = lookup-All P call flight g.inflight flights e in
            elim (Bool-cases succeeded) [
              | inr broke ↦
                  rw (e, broke, on_upstream_done)
                    (on_upstream_failure-Soon _ flight.req now_ms call o (queues, rest))
              | inl done ↦ elim (Bool-cases (leb flight.req.deadline_ms now_ms)) [
                | inl late ↦
                    rw (e, done, late, on_upstream_done, on_success)
                      (finish-Soon c env unnamed top _ flight.req now_ms expired (queues, rest))
                | inr timely ↦
                    rw (e, done, timely, on_upstream_done, on_success)
                      (finish-Soon c env unnamed top _ flight.req now_ms _ (queues, rest))
              ]
            ]
      ]
