-- ===== src/Gateway/Scheduler/Weight.antt =====
-- A weight of the queued requests, through the calls of the scheduler.
use agent_learn.Base.{
  ℕ, ◌+◌, ◌≤◌, ◌≡◌, ap, inl, inr, true, Option, none, some, List, [], ◌∷◌, ◌++◌, arith, ◌==◌, leb,
  insert, lookup, Bool-cases, Option-cases, refl, if◌then◌else◌,
}
use mathlib.Core.Option.{some-injective}
use agent_learn.Gateway.Request.{Request}
use agent_learn.Gateway.Scheduler.{
  Scheduler, is_full, stamp, append_to, enqueue, queue_of, pop, take_best, choose, before, best_of,
  remove_from, advance, sweep_expired, sift, sift_all, candidates, request_eq,
}
use agent_learn.Gateway.Scheduler.Depth.{stamp-same, advance-same, queue_of-cons}

-- `f` does not tell apart what `==` takes for the same request.
abbrev pub Respects : (Request → ℕ) → Type 0
Respects f = (a b : Request) → request_eq a b ≡ true → f a ≡ f b

module _ (f : Request → ℕ) where
  unfoldable pub weigh : List Request → ℕ
  weigh [] = 0
  weigh (r ∷ q) = f r + weigh q

  unfoldable pub weigh_all : List (ℕ × List Request) → ℕ
  weigh_all [] = 0
  weigh_all ((t, q) ∷ queues) = weigh q + weigh_all queues

  abbrev pub weigh_popped : Option Request → ℕ
  weigh_popped none = 0
  weigh_popped (some r) = f r

  pub weigh-append : (xs ys : List Request) → weigh (xs ++ ys) ≡ weigh xs + weigh ys
  unfolding weigh
  weigh-append [] ys = omega arith
  weigh-append (x ∷ xs) ys = omega (arith, weigh-append xs ys)

  weigh_all-insert :
      (t : ℕ) (q' : List Request) (queues : List (ℕ × List Request))
      → weigh_all (insert t q' queues) + weigh (queue_of t queues) ≡ weigh_all queues + weigh q'
  unfolding weigh_all weigh insert lookup
  weigh_all-insert t q' [] = omega arith
  weigh_all-insert t q' ((k, q) ∷ queues) =
      let rest = weigh_all-insert t q' queues in
      elim (Bool-cases (k == t)) [
        | inl h ↦ rw (queue_of-cons t k q queues, h) (omega arith)
        | inr h ↦ rw (queue_of-cons t k q queues, h) (omega arith)
      ]

  pub enqueue-weight :
      (s : Scheduler) (req : Request)
      → (enqueue s req).1 ≡ true
      → weigh_all (enqueue s req).0.queues ≡ weigh_all s.queues + f req
  unfolding enqueue append_to weigh
  enqueue-weight s req h = elim (Bool-cases (is_full s)) [
    | inl full ↦ absurd (ground (arith, rw (full) at h))
    | inr free ↦
        let s' = stamp s req s.policy in
        let q = queue_of req.tenant_id s'.queues in
        let sum = weigh_all-insert req.tenant_id (q ++ req ∷ []) s'.queues in
        let one = weigh-append q (req ∷ []) in
        let all = ap weigh_all (stamp-same s req s.policy).1 in rw free (omega arith)
  ]

  -- The request is queued, or it is not and nobody else is either.
  pub enqueue-weigh :
      (s : Scheduler) (req : Request)
      → weigh_all (enqueue s req).0.queues
        ≡ weigh_all s.queues + (if (enqueue s req).1 then f req else 0)
  unfolding enqueue
  enqueue-weigh s req = elim (Bool-cases (is_full s)) [
    | inl full ↦ rw (full, enqueue) (omega arith)
    | inr free ↦
        let more = enqueue-weight s req (rw (free, enqueue) refl) in
        rw (free, enqueue) (rw (free, enqueue) at more)
  ]

  sift-weigh :
      (now_ms : ℕ) (q : List Request) → weigh (sift now_ms q).0 + weigh (sift now_ms q).1 ≡ weigh q
  unfolding sift weigh
  sift-weigh now_ms [] = omega arith
  sift-weigh now_ms (r ∷ q) =
      let rest = sift-weigh now_ms q in
      elim (Bool-cases (leb r.deadline_ms now_ms)) [
        | inl e ↦ rw e (omega arith)
        | inr e ↦ rw e (omega arith)
      ]

  sift_all-weigh :
      (now_ms : ℕ) (queues : List (ℕ × List Request))
      → weigh_all (sift_all now_ms queues).0 + weigh (sift_all now_ms queues).1 ≡ weigh_all queues
  unfolding sift_all weigh_all weigh
  sift_all-weigh now_ms [] = omega arith
  sift_all-weigh now_ms ((t, q) ∷ queues) =
      let here = sift-weigh now_ms q in
      let rest = sift_all-weigh now_ms queues in
      let both = weigh-append (sift now_ms q).1 (sift_all now_ms queues).1 in omega arith

  pub sweep_expired-weigh :
      (s : Scheduler) (now_ms : ℕ)
      → weigh_all (sweep_expired s now_ms).0.queues + weigh (sweep_expired s now_ms).1
        ≡ weigh_all s.queues
  unfolding sweep_expired
  sweep_expired-weigh s now_ms = sift_all-weigh now_ms s.queues

  pub sweep_expired-weight :
      (s : Scheduler) (now_ms : ℕ)
      → weigh_all (sweep_expired s now_ms).0.queues ≤ weigh_all s.queues
  sweep_expired-weight s now_ms = let all = sweep_expired-weigh s now_ms in omega arith

  module _ (same : Respects f) where
    remove_from-weight :
        (req : Request) (q left : List Request)
        → remove_from req q ≡ some left
        → weigh left + f req ≡ weigh q
    unfolding remove_from weigh
    remove_from-weight req [] left h = absurd (ground arith)
    remove_from-weight req (r ∷ q) left h = elim (Bool-cases (request_eq r req)) [
      | inl e ↦
          let same_left = ap weigh (some-injective q left (rw e at h)) in
          let same_weight = same r req e in omega arith
      | inr e ↦ elim (Option-cases (remove_from req q)) [
        | inl gone ↦ absurd (ground arith)
        | inr (q', found) ↦
            let kept : some (r ∷ q') ≡ some left = rw (e, found) at h in
            let less = remove_from-weight req q q' found in
            let weights = ap weigh (some-injective (r ∷ q') left kept) in omega arith
      ]
    ]

    take_best-weight :
        (s : Scheduler) (c : ℕ × Request)
        → weigh_all (take_best s c).0.queues + weigh_popped (take_best s c).1 ≡ weigh_all s.queues
    unfolding take_best
    take_best-weight s (tenant, req) =
        let moved = advance s req s.policy in
        let unmoved = (advance-same s req s.policy).1 in
        elim (Option-cases (remove_from req (queue_of tenant s.queues))) [
          | inl gone ↦ rw (gone, take_best) (let all = ap weigh_all unmoved in omega arith)
          | inr (left, found) ↦
              let less = remove_from-weight req (queue_of tenant s.queues) left found in
              let sum = weigh_all-insert tenant left moved.queues in
              let all = ap weigh_all unmoved in
              let queue = ap (λ m. weigh (queue_of tenant m)) unmoved in
              rw (found, take_best) (omega arith)
        ]

    choose-weight :
        (s : Scheduler) (now_ms : ℕ) (cs : List (ℕ × Request))
        → weigh_all (choose s now_ms cs).0.queues + weigh_popped (choose s now_ms cs).1
          ≡ weigh_all s.queues
    unfolding choose
    choose-weight s now_ms [] = omega arith
    choose-weight s now_ms (x ∷ cs) = take_best-weight s (best_of (before s now_ms s.policy) x cs)

    pub pop-weight :
        (s : Scheduler) (now_ms : ℕ)
        → weigh_all (pop s now_ms).0.queues + weigh_popped (pop s now_ms).1 ≡ weigh_all s.queues
    unfolding pop
    pop-weight s now_ms = elim (Bool-cases (s.depth == 0)) [
      | inl e ↦ rw e (omega arith)
      | inr e ↦ rw e (choose-weight s now_ms (candidates s.policy s.queues))
    ]
