-- ===== src/Gateway/Pipeline/Drain.antt =====
-- The end of a run: `drain_pending` leaves nobody without an outcome.
use agent_learn.Base.{
  ℕ, ◌+◌, ◌≤◌, ◌^◌, ◌≡◌, refl, ap, subst, ◌∙◌, inl, inr, Option, none, some, List, [], ◌∷◌, arith,
  leb, ◌==◌, Bool-cases,
}
use agent_learn.Gateway.Request.{Request}
use agent_learn.Gateway.Coalescer.{drain_all, orphans}
use agent_learn.Gateway.Scheduler.{sift, sift_all, sweep_expired}
use agent_learn.Gateway.Pipeline.State.{Config, Env, InFlight, Gateway, Verdict, new}
use agent_learn.Gateway.Pipeline.Finish.{finish, expired, emit, emit_all}
use agent_learn.Gateway.Pipeline.{finish_all, requests_of, drain_pending, tick, maybe_autoscale}
use agent_learn.Gateway.Pipeline.Ledger.{
  by_id, weigh_outcomes, weigh_flights, weigh_outcomes-snoc, Holds, pending, finish-Holds,
}
use agent_learn.Gateway.Pipeline.Rounds.{finish-scheduler}
use agent_learn.Gateway.Pipeline.Deadlines.{Soon, over, finish-inflight, handle-Soon}
use agent_learn.Gateway.Pipeline.Deadlines.Upstream.{tick-Soon, on_upstream_done-Soon}
use agent_learn.Gateway.Pipeline.Arrival.{handle}
use agent_learn.Gateway.Pipeline.Upstream.{on_upstream_done}
use agent_learn.Gateway.Scheduler
use agent_learn.Gateway.Scheduler.Weight.{weigh, weigh_all, sweep_expired-weigh}
use agent_learn.Gateway.Pipeline.Run.{
  Event, arrives, ticks, answers, scales, run, arrivals, run-new-Holds,
}

-- A sweep at `top` leaves nobody, if no deadline is beyond `top`.
module _ (f : Request → ℕ) (top : ℕ) where
  sift-all : (q : List Request) → weigh (over top) q ≡ 0 → weigh f (sift top q).0 ≡ 0
  unfolding sift weigh
  sift-all [] soon = refl
  sift-all (r ∷ q) soon =
      let rest = sift-all q (omega arith) in
      elim (Bool-cases (leb r.deadline_ms top)) [
        | inl e ↦ rw e rest
        | inr e ↦ absurd (ground (arith, soon, e))
      ]

  sift_all-weightless :
      (queues : List (ℕ × List Request))
      → weigh_all (over top) queues ≡ 0
      → weigh_all f (sift_all top queues).0 ≡ 0
  unfolding sift_all weigh_all
  sift_all-weightless [] soon = refl
  sift_all-weightless ((t, q) ∷ queues) soon =
      let here = sift-all q (omega arith) in
      let rest = sift_all-weightless queues (omega arith) in omega arith

weigh-requests_of :
    (weight : ℕ → ℕ) (fs : List (ℕ × InFlight))
    → weigh (by_id weight) (requests_of fs) ≡ weigh_flights weight fs
unfolding requests_of weigh
weigh-requests_of weight [] = refl
weigh-requests_of weight ((k, f) ∷ fs) = let rest = weigh-requests_of weight fs in omega arith

emit_all-weight :
    (weight : ℕ → ℕ) (g : Gateway) (reqs : List Request) (now_ms : ℕ) (v : Verdict)
    → weigh_outcomes weight (emit_all g reqs now_ms v).outcomes
      ≡ weigh_outcomes weight g.outcomes + weigh (by_id weight) reqs
unfolding emit_all emit weigh
emit_all-weight weight g [] now_ms v = omega arith
emit_all-weight weight g (r ∷ reqs) now_ms v =
    let rest = emit_all-weight weight (emit g r now_ms v) reqs now_ms v in
    rw (rest, emit, weigh_outcomes-snoc) (omega arith)

-- Emitting outcomes moves nobody in a queue or on a flight.
emit_all-pending :
    (weight : ℕ → ℕ) (g : Gateway) (reqs : List Request) (now_ms : ℕ) (v : Verdict)
    → pending weight (emit_all g reqs now_ms v) ≡ pending weight g
unfolding emit_all emit
emit_all-pending weight g [] now_ms v = refl
emit_all-pending weight g (r ∷ reqs) now_ms v =
    emit_all-pending weight (emit g r now_ms v) reqs now_ms v

-- The deadlines of the arrivals.
abbrev pub Timely : ℕ → List Event → Type 0
Timely top [] = Unit
Timely top (arrives req now_ms ∷ es) = (req.deadline_ms ≤ top) × Timely top es
Timely top (ticks now_ms ∷ es) = Timely top es
Timely top (answers call succeeded now_ms ∷ es) = Timely top es
Timely top (scales limit ∷ es) = Timely top es

new-Soon : (c : Config) (top : ℕ) → Soon top (new c)
unfolding new Scheduler.new weigh_all
new-Soon c top = (refl, tt)

autoscale-Soon :
    (g : Gateway) (limit : Option ℕ) (top : ℕ) → Soon top g → Soon top (maybe_autoscale g limit)
unfolding maybe_autoscale
autoscale-Soon g none top soon = soon
autoscale-Soon g (some limit) top soon = elim (Bool-cases (limit == g.semaphore.limit)) [
  | inl e ↦ rw e soon
  | inr e ↦ rw e soon
]

run-Soon :
    (c : Config) (env : Env) (unnamed : (id : ℕ) → env.call_named id ≡ none) (top : ℕ)
    (es : List Event) (g : Gateway)
    → Timely top es
    → Soon top g
    → Soon top (run c env g es)
unfolding run
run-Soon c env unnamed top [] g timely soon = soon
run-Soon c env unnamed top (arrives req now_ms ∷ es) g timely soon =
    run-Soon c env unnamed top es (handle c env g req now_ms) timely.1
      (handle-Soon c env unnamed top g req now_ms (ground (arith, timely.0)) soon)
run-Soon c env unnamed top (ticks now_ms ∷ es) g timely soon =
    run-Soon c env unnamed top es (tick c env g now_ms) timely
      (tick-Soon c env unnamed top g now_ms soon)
run-Soon c env unnamed top (answers call succeeded now_ms ∷ es) g timely soon =
    run-Soon c env unnamed top es (on_upstream_done c env g call succeeded now_ms) timely
      (on_upstream_done-Soon c env unnamed top g call succeeded now_ms soon)
run-Soon c env unnamed top (scales limit ∷ es) g timely soon =
    run-Soon c env unnamed top es (maybe_autoscale g limit) timely (autoscale-Soon g limit top soon)

-- The first step of `drain_pending`.
abbrev without_queue : Config → Env → Gateway → ℕ → Gateway
without_queue c env g now_ms =
    let swept = sweep_expired g.scheduler (2 ^ 62) in
    finish_all c env (record g { scheduler = swept.0 }) swept.1 now_ms

module _ (weight : ℕ → ℕ) (c : Config) (env : Env)
    (unnamed : (id : ℕ) → env.call_named id ≡ none) where
  finish_all-same :
      (reqs : List Request) (g : Gateway) (now_ms : ℕ)
      → ((finish_all c env g reqs now_ms).inflight ≡ g.inflight)
        × ((finish_all c env g reqs now_ms).scheduler ≡ g.scheduler)
  unfolding finish_all
  finish_all-same [] g now_ms = (refl, refl)
  finish_all-same (r ∷ reqs) g now_ms =
      let rest = finish_all-same reqs (finish c env g r now_ms expired) now_ms in
      (
        rest.0 ∙ finish-inflight c env unnamed g r now_ms expired,
        rest.1 ∙ finish-scheduler c env g r now_ms expired,
      )

  finish_all-Holds :
      (reqs : List Request) (g : Gateway) (now_ms n : ℕ)
      → Holds weight n g
      → Holds weight (n + weigh (by_id weight) reqs) (finish_all c env g reqs now_ms)
  unfolding finish_all weigh
  finish_all-Holds [] g now_ms n h = subst (λ k. Holds weight k g) (omega arith) h
  finish_all-Holds (r ∷ reqs) g now_ms n h =
      let first = finish c env g r now_ms expired in
      subst (λ k. Holds weight k (finish_all c env first reqs now_ms)) (omega arith)
        (finish_all-Holds reqs first now_ms (n + weight r.request_id)
          (finish-Holds weight c env unnamed g r now_ms expired n h))

  -- After the requests in the queues are finished, the queues are empty.
  swept-Holds :
      (g : Gateway) (now_ms n : ℕ)
      → Holds weight n g
      → weigh_all (over (2 ^ 62)) g.scheduler.queues ≡ 0
      → Holds weight n (without_queue c env g now_ms)
        × (weigh_all (by_id weight) (without_queue c env g now_ms).scheduler.queues ≡ 0)
  unfolding sweep_expired
  swept-Holds g now_ms n (u, w, fresh, slots, sum) soon =
      let swept = sweep_expired g.scheduler (2 ^ 62) in
      let g' : Gateway = record g { scheduler = swept.0 } in
      let fewer = sweep_expired-weigh (by_id weight) g.scheduler (2 ^ 62) in
      let held =
        finish_all-Holds swept.1 g' now_ms (weigh_outcomes weight g'.outcomes + pending weight g')
          (u, w, fresh, slots, refl) in
      (
        subst (λ k. Holds weight k (without_queue c env g now_ms)) (omega arith) held,
        ap (λ s. weigh_all (by_id weight) s.queues) (finish_all-same swept.1 g' now_ms).1
            ∙ sift_all-weightless (by_id weight) (2 ^ 62) g.scheduler.queues soon,
      )

  drain-settles :
      (g : Gateway) (now_ms n : ℕ)
      → Holds weight n g
      → weigh_all (over (2 ^ 62)) g.scheduler.queues ≡ 0
      → (weigh_outcomes weight (drain_pending c env g now_ms).0.outcomes ≡ n)
        × (pending weight (drain_pending c env g now_ms).0 ≡ 0)
  unfolding drain_pending drain_all orphans weigh
  drain-settles g now_ms n h soon =
      let one = without_queue c env g now_ms in
      let (held, none_queued) = swept-Holds g now_ms n h soon in
      let flying = requests_of one.inflight in
      let two = finish_all c env one flying now_ms in
      let grounded = finish_all-Holds flying one now_ms n held in
      let same = finish_all-same flying one now_ms in
      let queues = ap (λ s. weigh_all (by_id weight) s.queues) same.1 in
      let flights = ap (weigh_flights weight) same.0 in
      let size = weigh-requests_of weight one.inflight in
      let drained = drain_all two.coalescer in
      let three : Gateway = record two { inflight = []; coalescer = drained.0 } in
      let ends = emit_all-weight weight three drained.1 now_ms expired in
      (
        omega (arith, grounded.4),
        emit_all-pending weight three drained.1 now_ms expired ∙ omega arith,
      )

-- If no request's identifier reads `call_<n>`, then after any sequence of arrivals, ticks, answers and
-- changes of the limit in which no request has a deadline beyond 2^62, `drain_pending` leaves outcomes
-- that, for any weights of the identifiers, weigh as much as the requests that arrived; with 1 for one
-- identifier and 0 for all others, as many outcomes of that identifier as requests of it came. Nobody
-- stays in a queue, in flight or on the flight of another.
pub drain-settles_all :
    (c : Config) (env : Env) (es : List Event) (now_ms : ℕ) (weight : ℕ → ℕ)
    → ((id : ℕ) → env.call_named id ≡ none)
    → Timely (2 ^ 62) es
    → (weigh_outcomes weight (drain_pending c env (run c env (new c) es) now_ms).0.outcomes
        ≡ arrivals weight es)
      × (pending weight (drain_pending c env (run c env (new c) es) now_ms).0 ≡ 0)
drain-settles_all c env es now_ms weight unnamed timely =
    drain-settles weight c env unnamed (run c env (new c) es) now_ms (arrivals weight es)
      (run-new-Holds weight c env unnamed es)
      (run-Soon c env unnamed (2 ^ 62) es (new c) timely (new-Soon c (2 ^ 62))).0
