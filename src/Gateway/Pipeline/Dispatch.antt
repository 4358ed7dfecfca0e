-- ===== src/Gateway/Pipeline/Dispatch.antt =====
-- The way of a request through the upstream and back.
use agent_learn.Base.{
  ℕ, zero, suc, ◌+◌, ◌≤◌, ◌<◌, ◌≡◌, refl, subst, inl, inr, Bool, false, none, some, List, [], ◌∷◌,
  arith, length, lookup, erase, All, All-map, insert-fresh, insert-All, insert-Unique, erase-All,
  erase-Unique, erase-present, Bool-cases, Option-cases, not, ◌&&◌, leb, ltb, ◌==◌, ==_iff, true,
  ap, ltb→lt,
}
use agent_learn.Gateway.Request.{Request, queue_full}
use agent_learn.Gateway.Scheduler.{enqueue, pop, sweep_expired, request_eq}
use agent_learn.Gateway.Scheduler.Weight.{
  weigh, Respects, enqueue-weigh, pop-weight, sweep_expired-weigh,
}
use agent_learn.Gateway.Semaphore.{Semaphore, try_acquire, release}
use agent_learn.Gateway.Breaker.{record_result}
use agent_learn.Gateway.Budget.{backoff_ms, should_retry}
use agent_learn.Gateway.Pipeline.State.{Config, Env, InFlight, Gateway}
use agent_learn.Gateway.Pipeline.Finish.{finish, expired}
use agent_learn.Gateway.Pipeline.Upstream.{
  retry_of, requeue, give_up, grant, on_upstream_failure, submit, on_success, on_upstream_done,
}
use agent_learn.Gateway.Pipeline.{dispatch_one, dispatch, finish_swept, maybe_sweep}
use agent_learn.Gateway.Pipeline.Ledger.{
  by_id, weigh_outcomes, weigh_flights-insert, weigh_flights-erase, pending, Holds, finish-Holds,
  reject-Holds,
}

-- The number of a call that is still to come is not in use.
lookup-above :
    (top : ℕ) (dict : List (ℕ × InFlight))
    → All (λ f. f.0 ≤ top) dict
    → lookup (top + 1) dict ≡ none
unfolding lookup
lookup-above top [] all = refl
lookup-above top ((k, f) ∷ dict) all =
    let rest = lookup-above top dict all.1 in
    elim (Bool-cases (k == top + 1)) [
      | inl e ↦ absurd (ground (arith, all.0, e))
      | inr e ↦ rw e rest
    ]

try_acquire-room :
    (s : Semaphore) → s.inflight < s.limit → (try_acquire s).0.inflight ≡ s.inflight + 1
unfolding try_acquire
try_acquire-room s room = ground arith

release-inflight : (s : Semaphore) (k : ℕ) → s.inflight ≡ k + 1 → (release s).inflight ≡ k
unfolding release
release-inflight s k h = ground arith

by_id-Respects : (weight : ℕ → ℕ) → Respects (by_id weight)
unfolding request_eq
by_id-Respects weight a b h =
    let same : (a.request_id == b.request_id) ≡ true = ground (arith, h) in
    ap weight ((==_iff a.request_id b.request_id).0 same)

-- A request that is popped is in hand.
pop-Holds :
    (weight : ℕ → ℕ) (g : Gateway) (now_ms n : ℕ) (req : Request)
    → (pop g.scheduler now_ms).1 ≡ some req
    → Holds weight n g
    → (m : ℕ) × ((m + weight req.request_id ≡ n)
        × Holds weight m (record g { scheduler = (pop g.scheduler now_ms).0 }))
pop-Holds weight g now_ms n req e (u, w, fresh, slots, sum) =
    let g' : Gateway = record g { scheduler = (pop g.scheduler now_ms).0 } in
    let one = rw e at (pop-weight (by_id weight) (by_id-Respects weight) g.scheduler now_ms) in
    (
      weigh_outcomes weight g'.outcomes + pending weight g',
      (omega arith, (u, w, fresh, slots, refl)),
    )

module _ (weight : ℕ → ℕ) (c : Config) (env : Env)
    (unnamed : (id : ℕ) → env.call_named id ≡ none) where
  requeue-Holds :
      (g : Gateway) (retry : Request) (now_ms n : ℕ)
      → Holds weight n g
      → Holds weight (n + weight retry.request_id) (requeue c env g retry now_ms)
  unfolding requeue
  requeue-Holds g retry now_ms n h =
      let queued = enqueue g.scheduler retry in
      let more = enqueue-weigh (by_id weight) g.scheduler retry in
      let g' : Gateway = record g {
        scheduler = queued.0;
        counters = record g.counters { retries = g.counters.retries + 1 };
      } in
      elim (Bool-cases queued.1) [
        | inl e ↦ let one = rw e at more in rw (e, requeue) (h.0, h.1, h.2, h.3, omega (arith, h.4))
        | inr e ↦
            let same = rw e at more in
            rw (e, requeue)
              (reject-Holds weight c env unnamed g' retry (some queue_full) now_ms n
                (h.0, h.1, h.2, h.3, omega (arith, h.4)))
      ]

  -- Whether a retry is granted or not, the tests of it move no request.
  grant-Holds :
      (g : Gateway) (req : Request) (now_ms backoff n : ℕ)
      → Holds weight n g
      → Holds weight n (grant c g req now_ms backoff).0
  unfolding grant
  grant-Holds g req now_ms backoff n h = elim (Bool-cases (not c.retry_enabled)) [
    | inl e ↦ rw (e, grant) h
    | inr e ↦
        elim (Bool-cases
          (should_retry c.retry g.retry_planner req.attempts now_ms req.deadline_ms backoff).1) [
            | inl w ↦ rw (e, w, grant) h
            | inr w ↦ rw (e, w, grant) h
          ]
  ]

  on_upstream_failure-Holds :
      (g : Gateway) (req : Request) (now_ms call n : ℕ)
      → Holds weight n g
      → Holds weight (n + weight req.request_id) (on_upstream_failure c env g req now_ms call)
  unfolding on_upstream_failure give_up retry_of
  on_upstream_failure-Holds g req now_ms call n h =
      let backoff = backoff_ms c.retry (env.backoff call) req.attempts in
      let granted = grant c g req now_ms backoff in
      let h' = grant-Holds g req now_ms backoff n h in
      elim (Bool-cases granted.1) [
        | inl e ↦ rw (e, on_upstream_failure) (requeue-Holds granted.0 (retry_of req) now_ms n h')
        | inr e ↦
            rw (e, on_upstream_failure) (finish-Holds weight c env unnamed _ req now_ms _ n h')
      ]

  submit-Holds :
      (g : Gateway) (req : Request) (now_ms n : ℕ)
      → g.semaphore.inflight < g.semaphore.limit
      → Holds weight n g
      → Holds weight (n + weight req.request_id) (submit c env g req now_ms)
  unfolding submit
  submit-Holds g req now_ms n room (u, w, fresh, slots, sum) =
      let taken = try_acquire-room g.semaphore room in
      let given = release-inflight (try_acquire g.semaphore).0 g.semaphore.inflight taken in
      let free = lookup-above g.call_seq g.inflight fresh in
      let flight : InFlight = record {
        req = req;
        started_ms = now_ms;
        degrade = req.degrade && c.admission.degrade_enabled;
      } in
      let older : All (λ f. f.0 ≤ g.call_seq + 1) g.inflight =
        All-map (λ f h. omega (arith, h)) g.inflight fresh in
      let grown = insert-fresh (g.call_seq + 1) flight g.inflight free in
      let heavier = weigh_flights-insert weight (g.call_seq + 1) flight g.inflight free in
      elim (Bool-cases (env.accepts (g.call_seq + 1))) [
        | inl e ↦
            rw (e, submit)
              (
                u,
                insert-Unique (g.call_seq + 1) flight g.inflight w,
                insert-All (λ f. f.0 ≤ g.call_seq + 1) (g.call_seq + 1) flight g.inflight
                    (omega arith) older,
                omega arith,
                omega arith,
              )
        | inr e ↦
            rw (e, submit)
              (on_upstream_failure-Holds _ req now_ms (g.call_seq + 1) n
                (u, w, older, omega arith, sum))
      ]

  dispatch_one-Holds :
      (g : Gateway) (req : Request) (now_ms n : ℕ)
      → g.semaphore.inflight < g.semaphore.limit
      → Holds weight n g
      → Holds weight (n + weight req.request_id) (dispatch_one c env g req now_ms)
  unfolding dispatch_one
  dispatch_one-Holds g req now_ms n room h = elim (Bool-cases (leb req.deadline_ms now_ms)) [
    | inl e ↦ rw (e, dispatch_one) (finish-Holds weight c env unnamed _ req now_ms expired n h)
    | inr e ↦ rw (e, dispatch_one) (submit-Holds g req now_ms n room h)
  ]

  pub dispatch-Holds :
      (fuel : ℕ) (g : Gateway) (now_ms n : ℕ)
      → Holds weight n g
      → Holds weight n (dispatch c env fuel g now_ms)
  unfolding dispatch
  dispatch-Holds zero g now_ms n h = h
  dispatch-Holds (suc fuel) g now_ms n h =
      let popped = pop g.scheduler now_ms in
      let g' : Gateway = record g { scheduler = popped.0 } in
      elim (Bool-cases (ltb g.semaphore.inflight g.semaphore.limit)) [
        | inr full ↦ rw (full, dispatch) h
        | inl room ↦ elim (Option-cases popped.1) [
          | inl e ↦
              let same =
                rw e at (pop-weight (by_id weight) (by_id-Respects weight) g.scheduler now_ms) in
              rw (room, e, dispatch) (h.0, h.1, h.2, h.3, omega (arith, h.4))
          | inr (req, e) ↦
              let (m, (one, before)) = pop-Holds weight g now_ms n req e h in
              let after =
                dispatch_one-Holds g' req now_ms m
                  (ltb→lt g.semaphore.inflight g.semaphore.limit room) before in
              rw (room, e, dispatch)
                (dispatch-Holds fuel (dispatch_one c env g' req now_ms) now_ms n
                  (subst (λ k. Holds weight k (dispatch_one c env g' req now_ms)) one after))
        ]
      ]

  finish_swept-Holds :
      (reqs : List Request) (g : Gateway) (now_ms n : ℕ)
      → Holds weight n g
      → Holds weight (n + weigh (by_id weight) reqs) (finish_swept c env g reqs now_ms)
  unfolding finish_swept weigh
  finish_swept-Holds [] g now_ms n h = subst (λ k. Holds weight k g) (omega arith) h
  finish_swept-Holds (r ∷ reqs) g now_ms n h =
      let n' = g.counters in
      let first =
        finish c env (record g { counters = record n' { swept_timeout = n'.swept_timeout + 1 } }) r
          now_ms expired in
      subst (λ k. Holds weight k (finish_swept c env first reqs now_ms)) (omega arith)
        (finish_swept-Holds reqs first now_ms (n + weight r.request_id)
          (finish-Holds weight c env unnamed _ r now_ms expired n h))

  pub maybe_sweep-Holds :
      (g : Gateway) (now_ms n : ℕ) → Holds weight n g → Holds weight n (maybe_sweep c env g now_ms)
  unfolding maybe_sweep
  maybe_sweep-Holds g now_ms n (u, w, fresh, slots, sum) =
      let swept = sweep_expired g.scheduler now_ms in
      let g' : Gateway = record g { last_sweep_ms = now_ms; scheduler = swept.0 } in
      let fewer = sweep_expired-weigh (by_id weight) g.scheduler now_ms in
      elim (Bool-cases (not c.sweep_expired)) [
        | inl off ↦ rw (off, maybe_sweep) (u, w, fresh, slots, sum)
        | inr on ↦ elim (Bool-cases (ltb now_ms (g.last_sweep_ms + c.sweep_interval_ms))) [
          | inl early ↦ rw (on, early, maybe_sweep) (u, w, fresh, slots, sum)
          | inr due ↦
              rw (on, due, maybe_sweep)
                (subst (λ k. Holds weight k (finish_swept c env g' swept.1 now_ms)) (omega arith)
                  (finish_swept-Holds swept.1 g' now_ms
                    (weigh_outcomes weight g'.outcomes + pending weight g')
                    (u, w, fresh, slots, refl)))
        ]
      ]

  on_success-Holds :
      (g : Gateway) (flight : InFlight) (call now_ms n : ℕ)
      → Holds weight n g
      → Holds weight (n + weight flight.req.request_id) (on_success c env g flight call now_ms)
  unfolding on_success
  on_success-Holds g flight call now_ms n h =
      elim (Bool-cases (leb flight.req.deadline_ms now_ms)) [
        | inl e ↦
            rw (e, on_success) (finish-Holds weight c env unnamed _ flight.req now_ms expired n h)
        | inr e ↦ rw (e, on_success) (finish-Holds weight c env unnamed _ flight.req now_ms _ n h)
      ]

  pub on_upstream_done-Holds :
      (g : Gateway) (call : ℕ) (succeeded : Bool) (now_ms n : ℕ)
      → Holds weight n g
      → Holds weight n (on_upstream_done c env g call succeeded now_ms)
  unfolding on_upstream_done
  on_upstream_done-Holds g call succeeded now_ms n (u, w, fresh, slots, sum) =
      elim (Option-cases (lookup call g.inflight)) [
        | inl e ↦ rw (e, on_upstream_done) (u, w, fresh, slots, sum)
        | inr (flight, e) ↦
            let g' : Gateway = record g {
              inflight = erase call g.inflight;
              semaphore = release g.semaphore;
            } in
            let fewer = erase-present call flight g.inflight w e in
            let lighter = weigh_flights-erase weight call flight g.inflight w e in
            let given = release-inflight g.semaphore (length g'.inflight) (omega arith) in
            let m = weigh_outcomes weight g'.outcomes + pending weight g' in
            let h' : Holds weight m g' = (
              u,
              erase-Unique call g.inflight w,
              erase-All (λ f. f.0 ≤ g.call_seq) call g.inflight fresh,
              given,
              refl,
            ) in
            let told : Gateway = record g' {
              breaker = record_result c.breaker g'.breaker false now_ms;
            } in
            let back : m + weight flight.req.request_id ≡ n = omega arith in
            elim (Bool-cases succeeded) [
              | inl done ↦
                  rw (e, done, on_upstream_done)
                    (subst (λ k. Holds weight k (on_success c env g' flight call now_ms)) back
                      (on_success-Holds g' flight call now_ms m h'))
              | inr broke ↦
                  rw (e, broke, on_upstream_done)
                    (subst
                      (λ k. Holds weight k (on_upstream_failure c env told flight.req now_ms call))
                      back (on_upstream_failure-Holds told flight.req now_ms call m h'))
            ]
      ]
