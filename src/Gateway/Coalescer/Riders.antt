-- ===== src/Gateway/Coalescer/Riders.antt =====
-- Every request that joined a flight is handed back.
use agent_learn.Base.{
  ℕ, ◌+◌, ◌≡◌, refl, sym, inl, inr, true, none, some, List, [], ◌∷◌, ◌++◌, arith, ◌==◌, ==_iff,
  subst, insert-Unique, erase-Unique, length, length-append, lookup, insert, erase, Bool-cases,
  Option-cases, Unique, if◌then◌else◌,
}
use agent_learn.Gateway.Request.{Request}
use agent_learn.Gateway.Scheduler.Weight.{weigh, weigh-append}
use agent_learn.Gateway.Coalescer.{
  Flight, Coalescer, new, board, join, start, waiters_of, complete, abandon, orphans, drain_all,
}

-- What a caller does: a request that cannot join starts a flight; flights end one way or the other.
pub data Call : Type 0 where
  arrives : Request → ℕ → Call
  completes abandons : ℕ → Call
  drains : Call

-- `handle`: a request that may be merged joins the flight of its key, or starts it.
abbrev arrive : Coalescer → Request → ℕ → Coalescer
arrive c req now_ms =
    let first = join c req in
    if first.1 then first.0 else if req.coalescable then start first.0 req now_ms else first.0

-- The coalescer after a call, and the requests the call hands back.
abbrev pub step : Coalescer → Call → Coalescer × List Request
step c (arrives req now_ms) = (arrive c req now_ms, [])
step c (completes key) = complete c key
step c (abandons key) = abandon c key
step c drains = drain_all c

-- The requests that have joined a flight, in the order in which they did.
abbrev joiners : Coalescer → Call → List Request
joiners c (arrives req now_ms) = if (join c req).1 then req ∷ [] else []
joiners c (completes key) = []
joiners c (abandons key) = []
joiners c drains = []

pub joined_by : Coalescer → List Call → List Request
joined_by c [] = []
joined_by c (call ∷ calls) = joiners c call ++ joined_by (step c call).0 calls

pub run : Coalescer → List Call → Coalescer × List Request
run c [] = (c, [])
run c (call ∷ calls) =
    let first = step c call in let rest = run first.0 calls in (rest.0, first.1 ++ rest.1)

arrive-start :
    (c : Coalescer) (req : Request) (now_ms : ℕ)
    → req.coalescable ≡ true
    → lookup req.cache_key c.inflight ≡ none
    → arrive c req now_ms ≡ start c req now_ms
unfolding join board
arrive-start c req now_ms on e = simp (on, e)

arrive-board :
    (c : Coalescer) (req : Request) (now_ms : ℕ) (f : Flight)
    → req.coalescable ≡ true
    → lookup req.cache_key c.inflight ≡ some f
    → arrive c req now_ms ≡ (board c req (some f)).0
unfolding join board
arrive-board c req now_ms f on e = simp (on, e)

-- The requests that wait, over all flights, each with its weight.
abbrev pub waiting : (Request → ℕ) → Coalescer → ℕ
waiting f c = weigh f (orphans c.inflight)

module _ (f : Request → ℕ) where
  orphans-cons :
      (x : Flight) (k : ℕ) (fs : List (ℕ × Flight))
      → weigh f (orphans ((k, x) ∷ fs)) ≡ weigh f x.waiters + weigh f (orphans fs)
  unfolding orphans weigh
  orphans-cons x k fs = weigh-append f x.waiters (orphans fs)

  orphans-nil : weigh f (orphans []) ≡ 0
  unfolding orphans weigh
  orphans-nil = refl

  orphans-erase :
      (key : ℕ) (fs : List (ℕ × Flight))
      → Unique fs
      → weigh f (orphans (erase key fs)) + weigh f (waiters_of (lookup key fs))
        ≡ weigh f (orphans fs)
  unfolding erase lookup weigh
  orphans-erase key [] u = let nil = orphans-nil in omega arith
  orphans-erase key ((k, x) ∷ fs) u =
      let rest = orphans-erase key fs u.1 in
      let here = orphans-cons x k fs in
      elim (Bool-cases (k == key)) [
        | inl e ↦
            let gone : lookup key fs ≡ none =
              subst (λ j. lookup j fs ≡ none) ((==_iff k key).0 e) u.0 in
            let missing = rw (gone) at rest in rw e (omega arith)
        | inr e ↦ rw (e, orphans-cons x k (erase key fs)) (omega arith)
      ]

  orphans-insert :
      (key : ℕ) (g : Flight) (fs : List (ℕ × Flight))
      → weigh f (orphans (insert key g fs)) + weigh f (waiters_of (lookup key fs))
        ≡ weigh f (orphans fs) + weigh f g.waiters
  unfolding insert lookup weigh
  orphans-insert key g [] = let nil = orphans-nil in let here = orphans-cons g key [] in omega arith
  orphans-insert key g ((k, x) ∷ fs) =
      let rest = orphans-insert key g fs in
      let here = orphans-cons x k fs in
      elim (Bool-cases (k == key)) [
        | inl e ↦ rw (e, orphans-cons g key fs) (omega arith)
        | inr e ↦ rw (e, orphans-cons x k (insert key g fs)) (omega arith)
      ]

  -- One call: who joins or waited before it waits now or is handed back, and joiners are counted.
  abbrev pub Kept : Coalescer → List Request → Coalescer × List Request → Type 0
  Kept c gained out =
      Unique out.0.inflight
      × (weigh f gained + waiting f c ≡ weigh f out.1 + waiting f out.0)
      × (out.0.joined ≡ c.joined + length gained)

  pub board-Kept :
      (c : Coalescer) (req : Request)
      → Unique c.inflight
      → (x : Flight) → lookup req.cache_key c.inflight ≡ some x
      → Kept c (req ∷ []) ((board c req (some x)).0, [])
  unfolding board weigh
  board-Kept c req u x e =
      let g : Flight = record x { waiters = x.waiters ++ req ∷ [] } in
      let sum = rw e at (orphans-insert req.cache_key g c.inflight) in
      let one_more = weigh-append f x.waiters (req ∷ []) in
      (insert-Unique req.cache_key g c.inflight u, omega arith, omega arith)

  pub start-Kept :
      (c : Coalescer) (req : Request) (now_ms : ℕ)
      → Unique c.inflight
      → lookup req.cache_key c.inflight ≡ none
      → Kept c [] (start c req now_ms, [])
  unfolding start weigh
  start-Kept c req now_ms u e =
      let g : Flight = record {
        key = req.cache_key;
        leader = req;
        started_ms = now_ms;
        waiters = [];
      } in
      let sum = rw e at (orphans-insert req.cache_key g c.inflight) in
      (insert-Unique req.cache_key g c.inflight u, omega arith, omega arith)

  pub take-Kept :
      (c : Coalescer) (key abandoned : ℕ)
      → Unique c.inflight
      → Kept c [] (
        record c { inflight = erase key c.inflight; abandoned = abandoned },
        waiters_of (lookup key c.inflight),
      )
  unfolding weigh
  take-Kept c key abandoned u =
      let sum = orphans-erase key c.inflight u in
      (erase-Unique key c.inflight u, omega arith, omega arith)

  arrive-Kept :
      (c : Coalescer) (req : Request) (now_ms : ℕ)
      → Unique c.inflight
      → Kept c (joiners c (arrives req now_ms)) (arrive c req now_ms, [])
  unfolding join board weigh
  arrive-Kept c req now_ms u = elim (Bool-cases req.coalescable) [
    | inr off ↦ rw (off, join) (u, omega arith, omega arith)
    | inl on ↦ elim (Option-cases (lookup req.cache_key c.inflight)) [
      | inl e ↦
          let alone : joiners c (arrives req now_ms) ≡ [] = simp (on, e) in
          subst (λ d. Kept c (joiners c (arrives req now_ms)) (d, []))
            (sym (arrive-start c req now_ms on e))
            (subst (λ l. Kept c l (start c req now_ms, [])) (sym alone)
              (start-Kept c req now_ms u e))
      | inr (x, e) ↦
          let rides : joiners c (arrives req now_ms) ≡ req ∷ [] = simp (on, e) in
          subst (λ d. Kept c (joiners c (arrives req now_ms)) (d, []))
            (sym (arrive-board c req now_ms x on e))
            (subst (λ l. Kept c l ((board c req (some x)).0, [])) (sym rides)
              (board-Kept c req u x e))
    ]
  ]

  step-Kept :
      (c : Coalescer) (call : Call) → Unique c.inflight → Kept c (joiners c call) (step c call)
  unfolding complete abandon drain_all weigh orphans
  step-Kept c (arrives req now_ms) u = arrive-Kept c req now_ms u
  step-Kept c (completes key) u = take-Kept c key c.abandoned u
  step-Kept c (abandons key) u =
      take-Kept c key (c.abandoned + length (waiters_of (lookup key c.inflight))) u
  step-Kept c drains u = (tt, omega arith, omega arith)

  run-Kept :
      (c : Coalescer) (calls : List Call)
      → Unique c.inflight
      → Kept c (joined_by c calls) (run c calls)
  unfolding run joined_by weigh
  run-Kept c [] u = (u, omega arith, omega arith)
  run-Kept c (call ∷ calls) u =
      let c' = (step c call).0 in
      let first = step-Kept c call u in
      let rest = run-Kept c' calls first.0 in
      let both = weigh-append f (step c call).1 (run c' calls).1 in
      let gains = weigh-append f (joiners c call) (joined_by c' calls) in
      let sizes = length-append (joiners c call) (joined_by c' calls) in
      (rest.0, omega (arith, first.1, rest.1), omega (arith, first.2, rest.2))

-- No rider is lost, handed back twice, or mistaken for another request: give each request any weight,
-- for instance 1 to those with one identifier and 0 to all others. Then over any sequence of
-- arrivals, completions, failures and drains from a new coalescer, the requests that joined a flight
-- weigh as much as those that were handed back and those that wait now. The counter `joined` is
-- their number, and once the flights are drained nobody waits.
pub riders_conserved :
    (f : Request → ℕ) (calls : List Call)
    → (weigh f (joined_by new calls) ≡ weigh f (run new calls).1 + waiting f (run new calls).0)
      × ((run new calls).0.joined ≡ length (joined_by new calls))
      × (orphans (drain_all (run new calls).0).0.inflight ≡ [])
unfolding new drain_all orphans weigh
riders_conserved f calls =
    let kept = run-Kept f new calls tt in (omega (arith, kept.1), omega (arith, kept.2), refl)
