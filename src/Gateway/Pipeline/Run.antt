-- ===== src/Gateway/Pipeline/Run.antt =====
-- Any sequence of arrivals, ticks, answers of the upstream and changes of the limit.
use agent_learn.Base.{
  ℕ, ◌+◌, ◌≡◌, refl, subst, inl, inr, Bool, Option, none, some, List, [], ◌∷◌, arith, length, ◌==◌,
  Bool-cases,
}
use agent_learn.Gateway.Request.{Request}
use agent_learn.Gateway.Coalescer
use agent_learn.Gateway.Coalescer.{orphans}
use agent_learn.Gateway.Scheduler
use agent_learn.Gateway.Scheduler.Weight.{weigh, weigh_all}
use agent_learn.Gateway.Semaphore.{set_limit}
use agent_learn.Gateway.Semaphore
use agent_learn.Gateway.Pipeline.State.{Config, Env, Gateway, new}
use agent_learn.Gateway.Pipeline.Arrival.{handle}
use agent_learn.Gateway.Pipeline.Upstream.{on_upstream_done}
use agent_learn.Gateway.Pipeline.{tick, maybe_sweep, maybe_autoscale}
use agent_learn.Gateway.Pipeline.Ledger.{Holds, pending, weigh_outcomes}
use agent_learn.Gateway.Pipeline.Entry.{handle-Holds}
use agent_learn.Gateway.Pipeline.Dispatch.{
  dispatch-Holds, maybe_sweep-Holds, on_upstream_done-Holds,
}

pub data Event : Type 0 where
  arrives : Request → ℕ → Event
  ticks : ℕ → Event
  answers : ℕ → Bool → ℕ → Event
  scales : Option ℕ → Event

abbrev pub step : Config → Env → Gateway → Event → Gateway
step c env g (arrives req now_ms) = handle c env g req now_ms
step c env g (ticks now_ms) = tick c env g now_ms
step c env g (answers call succeeded now_ms) = on_upstream_done c env g call succeeded now_ms
step c env g (scales limit) = maybe_autoscale g limit

unfoldable pub run : Config → Env → Gateway → List Event → Gateway
run c env g [] = g
run c env g (e ∷ es) = run c env (step c env g e) es

-- What the requests that arrive weigh.
abbrev pub arrivals : (ℕ → ℕ) → List Event → ℕ
arrivals weight [] = 0
arrivals weight (arrives req now_ms ∷ es) = weight req.request_id + arrivals weight es
arrivals weight (ticks now_ms ∷ es) = arrivals weight es
arrivals weight (answers call succeeded now_ms ∷ es) = arrivals weight es
arrivals weight (scales limit ∷ es) = arrivals weight es

maybe_autoscale-Holds :
    (weight : ℕ → ℕ) (g : Gateway) (limit : Option ℕ) (n : ℕ)
    → Holds weight n g
    → Holds weight n (maybe_autoscale g limit)
unfolding maybe_autoscale set_limit
maybe_autoscale-Holds weight g none n h = h
maybe_autoscale-Holds weight g (some limit) n h = elim (Bool-cases (limit == g.semaphore.limit)) [
  | inl e ↦ rw e h
  | inr e ↦ rw e h
]

module _ (weight : ℕ → ℕ) (c : Config) (env : Env)
    (unnamed : (id : ℕ) → env.call_named id ≡ none) where
  tick-Holds :
      (g : Gateway) (now_ms n : ℕ) → Holds weight n g → Holds weight n (tick c env g now_ms)
  unfolding tick
  tick-Holds g now_ms n h =
      dispatch-Holds weight c env unnamed _ (maybe_sweep c env g now_ms) now_ms n
        (maybe_sweep-Holds weight c env unnamed g now_ms n h)

  run-Holds :
      (es : List Event) (g : Gateway) (n : ℕ)
      → Holds weight n g
      → Holds weight (n + arrivals weight es) (run c env g es)
  unfolding run
  run-Holds [] g n h = subst (λ k. Holds weight k g) (omega arith) h
  run-Holds (arrives req now_ms ∷ es) g n h =
      subst (λ k. Holds weight k (run c env (handle c env g req now_ms) es)) (omega arith)
        (run-Holds es (handle c env g req now_ms) (n + weight req.request_id)
          (handle-Holds weight c env unnamed g req now_ms n h))
  run-Holds (ticks now_ms ∷ es) g n h =
      run-Holds es (tick c env g now_ms) n (tick-Holds g now_ms n h)
  run-Holds (answers call succeeded now_ms ∷ es) g n h =
      run-Holds es (on_upstream_done c env g call succeeded now_ms) n
        (on_upstream_done-Holds weight c env unnamed g call succeeded now_ms n h)
  run-Holds (scales limit ∷ es) g n h =
      run-Holds es (maybe_autoscale g limit) n (maybe_autoscale-Holds weight g limit n h)

  pub run-new-Holds : (es : List Event) → Holds weight (arrivals weight es) (run c env (new c) es)
  unfolding new Coalescer.new Scheduler.new Semaphore.new orphans weigh weigh_all
  run-new-Holds es =
      subst (λ k. Holds weight k (run c env (new c) es)) (omega arith)
        (run-Holds es (new c) 0 (tt, tt, tt, refl, omega arith))

-- If no request's identifier reads `call_<n>`, then over any sequence of arrivals, ticks, answers and
-- changes of the limit, whatever the upstream accepts and the draws are: give each identifier any
-- weight, for instance 1 to one of them and 0 to all others. The outcomes weigh, by the identifiers
-- that stand in them, together with the pending requests (in a queue, in flight, or riders on a
-- flight), as much as the requests that arrived. So no identifier is lost, answered twice or
-- exchanged for another one. And exactly as many slots of the semaphore are taken as calls are in
-- flight.
pub requests_conserved :
    (c : Config) (env : Env) (es : List Event) (weight : ℕ → ℕ)
    → ((id : ℕ) → env.call_named id ≡ none)
    → (weigh_outcomes weight (run c env (new c) es).outcomes + pending weight (run c env (new c) es)
        ≡ arrivals weight es)
      × ((run c env (new c) es).semaphore.inflight ≡ length (run c env (new c) es).inflight)
requests_conserved c env es weight unnamed =
    let held = run-new-Holds weight c env unnamed es in (held.4, held.3)
