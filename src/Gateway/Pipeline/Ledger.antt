-- ===== src/Gateway/Pipeline/Ledger.antt =====
-- What becomes of each request that arrived: an outcome, a place in a queue, a call in flight, or a
-- seat on the flight of another one.
use agent_learn.Base.{
  ℕ, ◌+◌, ◌≤◌, ◌≡◌, refl, sym, subst, inl, inr, none, Option, List, [], ◌∷◌, arith, length, lookup,
  insert, erase, erase-absent, some, ◌++◌, ap, ◌==◌, ==_iff, Unique, All, Bool-cases, Option-cases,
}
use mathlib.Core.Option.{some-injective}
use agent_learn.Gateway.Request.{Request, RejectReason}
use agent_learn.Gateway.Coalescer.{complete}
use agent_learn.Gateway.Coalescer.Riders.{waiting, take-Kept}
use agent_learn.Gateway.Scheduler.Weight.{weigh, weigh_all}
use agent_learn.Gateway.Pipeline.State.{Config, Env, InFlight, OutcomeRecord, Gateway, Verdict}
use agent_learn.Gateway.Pipeline.Finish.{
  emit, emit_all, shared, drop_named, release_riders, finish, reject,
}

-- The weight of a request is that of its identifier.
abbrev pub by_id : (ℕ → ℕ) → Request → ℕ
by_id weight req = weight req.request_id

abbrev pub weigh_outcomes : (ℕ → ℕ) → List OutcomeRecord → ℕ
weigh_outcomes weight [] = 0
weigh_outcomes weight (o ∷ os) = weight o.request_id + weigh_outcomes weight os

abbrev pub weigh_flights : (ℕ → ℕ) → List (ℕ × InFlight) → ℕ
weigh_flights weight [] = 0
weigh_flights weight (f ∷ fs) = weight f.1.req.request_id + weigh_flights weight fs

-- Requests that have no outcome yet.
abbrev pub pending : (ℕ → ℕ) → Gateway → ℕ
pending weight g =
    weigh_all (by_id weight) g.scheduler.queues
    + weigh_flights weight g.inflight
    + waiting (by_id weight) g.coalescer

-- Dictionaries without double keys, calls numbered up to `call_seq`, a slot of the semaphore for each
-- call in flight, and requests of weight `n` that are pending or have their outcome.
abbrev pub Holds : (ℕ → ℕ) → ℕ → Gateway → Type 0
Holds weight n g =
    Unique g.coalescer.inflight
    × Unique g.inflight
    × All (λ f. f.0 ≤ g.call_seq) g.inflight
    × (g.semaphore.inflight ≡ length g.inflight)
    × (weigh_outcomes weight g.outcomes + pending weight g ≡ n)

pub weigh_outcomes-snoc :
    (weight : ℕ → ℕ) (os : List OutcomeRecord) (o : OutcomeRecord)
    → weigh_outcomes weight (os ++ o ∷ []) ≡ weigh_outcomes weight os + weight o.request_id
weigh_outcomes-snoc weight [] o = omega arith
weigh_outcomes-snoc weight (x ∷ os) o = let rest = weigh_outcomes-snoc weight os o in omega arith

-- What a call in flight weighs, when it starts and when it ends.
pub weigh_flights-insert :
    (weight : ℕ → ℕ) (call : ℕ) (flight : InFlight) (dict : List (ℕ × InFlight))
    → lookup call dict ≡ none
    → weigh_flights weight (insert call flight dict)
      ≡ weigh_flights weight dict + weight flight.req.request_id
unfolding insert lookup
weigh_flights-insert weight call flight [] h = omega arith
weigh_flights-insert weight call flight ((k, f) ∷ dict) h = elim (Bool-cases (k == call)) [
  | inl e ↦ absurd (ground arith)
  | inr e ↦
      let rest = weigh_flights-insert weight call flight dict (rw e at h) in rw e (omega arith)
]

pub weigh_flights-erase :
    (weight : ℕ → ℕ) (call : ℕ) (flight : InFlight) (dict : List (ℕ × InFlight))
    → Unique dict
    → lookup call dict ≡ some flight
    → weigh_flights weight (erase call dict) + weight flight.req.request_id
      ≡ weigh_flights weight dict
unfolding erase lookup
weigh_flights-erase weight call flight [] u h = absurd (ground arith)
weigh_flights-erase weight call flight ((k, f) ∷ dict) u h = elim (Bool-cases (k == call)) [
  | inl e ↦
      let gone : lookup call dict ≡ none =
        subst (λ i. lookup i dict ≡ none) ((==_iff k call).0 e) u.0 in
      let same : f ≡ flight = some-injective f flight (rw e at h) in
      let weights = ap (λ x. weight x.req.request_id) same in
      rw (e, erase-absent call dict gone) (omega arith)
  | inr e ↦
      let rest = weigh_flights-erase weight call flight dict u.1 (rw e at h) in rw e (omega arith)
]

module _ (weight : ℕ → ℕ) where
  emit-Holds :
      (g : Gateway) (req : Request) (now_ms : ℕ) (v : Verdict) (n : ℕ)
      → Holds weight n g
      → Holds weight (n + weight req.request_id) (emit g req now_ms v)
  unfolding emit
  emit-Holds g req now_ms v n (u, w, fresh, slots, sum) =
      (u, w, fresh, slots, rw (weigh_outcomes-snoc, emit) (omega arith))

  pub emit_all-Holds :
      (g : Gateway) (reqs : List Request) (now_ms : ℕ) (v : Verdict) (n : ℕ)
      → Holds weight n g
      → Holds weight (n + weigh (by_id weight) reqs) (emit_all g reqs now_ms v)
  unfolding emit_all weigh
  emit_all-Holds g [] now_ms v n h = subst (λ k. Holds weight k g) (omega arith) h
  emit_all-Holds g (r ∷ reqs) now_ms v n h =
      subst (λ k. Holds weight k (emit_all g (r ∷ reqs) now_ms v)) (omega arith)
        (emit_all-Holds (emit g r now_ms v) reqs now_ms v (n + weight r.request_id)
          (emit-Holds g r now_ms v n h))

  -- A flight that ends is not pending any more: its riders are in hand.
  complete-Holds :
      (g : Gateway) (key n : ℕ)
      → Holds weight n g
      → (m : ℕ) × ((m + weigh (by_id weight) (complete g.coalescer key).1 ≡ n)
          × Holds weight m (record g { coalescer = (complete g.coalescer key).0 }))
  unfolding complete weigh
  complete-Holds g key n (u, w, fresh, slots, sum) =
      let g' : Gateway = record g { coalescer = (complete g.coalescer key).0 } in
      let kept = take-Kept (by_id weight) g.coalescer key g.coalescer.abandoned u in
      (
        weigh_outcomes weight g'.outcomes + pending weight g',
        (omega (arith, kept.1), (kept.0, w, fresh, slots, refl)),
      )

module _ (weight : ℕ → ℕ) (c : Config) (env : Env)
    (unnamed : (id : ℕ) → env.call_named id ≡ none) where
  release_riders-Holds :
      (g : Gateway) (req : Request) (key now_ms : ℕ) (v : Verdict) (n : ℕ)
      → Holds weight n g
      → Holds weight n (release_riders env g req key now_ms v)
  unfolding release_riders drop_named
  release_riders-Holds g req key now_ms v n h =
      let (m, (sum, before)) = complete-Holds weight g key n h in
      let g' =
        emit_all (record g { coalescer = (complete g.coalescer key).0 })
          (complete g.coalescer key).1 now_ms (shared v v.status) in
      let after : Holds weight n g' =
        subst (λ k. Holds weight k g') sum
          (emit_all-Holds weight (record g { coalescer = (complete g.coalescer key).0 })
            (complete g.coalescer key).1 now_ms (shared v v.status) m before) in
      subst (λ o. Holds weight n (record g' { inflight = drop_named o g'.inflight }))
        (sym (unnamed req.request_id)) after

  -- A request in hand gets its outcome.
  pub finish-Holds :
      (g : Gateway) (req : Request) (now_ms : ℕ) (v : Verdict) (n : ℕ)
      → Holds weight n g
      → Holds weight (n + weight req.request_id) (finish c env g req now_ms v)
  unfolding finish emit
  finish-Holds g req now_ms v n h =
      let emitted = emit g req now_ms v in
      let g' : Gateway = record emitted { leader_key = erase req.request_id emitted.leader_key } in
      let done = emit-Holds weight g req now_ms v n h in
      elim (Option-cases (lookup req.request_id g.leader_key)) [
        | inl e ↦ rw (e, finish) done
        | inr (key, e) ↦ elim (Bool-cases c.coalescing_enabled) [
          | inl on ↦
              rw (e, on, finish)
                (release_riders-Holds g' req key now_ms v (n + weight req.request_id) done)
          | inr off ↦ rw (e, off, finish) done
        ]
      ]

  pub reject-Holds :
      (g : Gateway) (req : Request) (reason : Option RejectReason) (now_ms n : ℕ)
      → Holds weight n g
      → Holds weight (n + weight req.request_id) (reject c env g req reason now_ms)
  unfolding reject
  reject-Holds g req reason now_ms n h = finish-Holds _ req now_ms _ n h
