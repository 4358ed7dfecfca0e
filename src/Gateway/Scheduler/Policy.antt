-- ===== src/Gateway/Scheduler/Policy.antt =====
-- Whom each policy of the scheduler is to serve, said without the code's own keys and candidates.
use agent_learn.Base.{ℕ, ◌+◌, ◌*◌, ◌-◌, ◌≤◌, ◌<◌, ◌≡◌, ◌⊎◌, List, [], ◌∷◌, ◌++◌, All}
use agent_learn.Gateway.Request.{
  Request, QueuePolicy, fifo, priority_aging, wfq, Priority, critical, interactive, standard, free,
  batch,
}
use agent_learn.Gateway.Scheduler.{Scheduler, at_or_zero, heads, everyone, of_tenant}

-- What holds of the head of each queue.
abbrev pub Heads : (Request → Type 0) → List (ℕ × List Request) → Type 0
Heads P [] = Unit
Heads P ((t, []) ∷ queues) = Heads P queues
Heads P ((t, x ∷ q) ∷ queues) = P x × Heads P queues

-- `r` arrived before `x`, or with it and has no greater identifier.
abbrev pub Earlier : Request → Request → Type 0
Earlier r x =
    (r.arrived_ms < x.arrived_ms) ⊎ ((r.arrived_ms ≡ x.arrived_ms) × (r.request_id ≤ x.request_id))

-- The five classes, the most urgent first, and what a request has gained by waiting, in millionths.
abbrev rank : Priority → ℕ
rank critical = 4
rank interactive = 3
rank standard = 2
rank free = 1
rank batch = 0

abbrev pub urgency : ℕ → ℕ → Request → ℕ
urgency aging_per_second now_ms r =
    rank r.priority * 1000000 + aging_per_second * (now_ms - r.arrived_ms)

-- Whom each policy is to serve: the earliest head of a queue; the head with the least virtual start;
-- the most urgent of all that are queued.
abbrev pub Served : Scheduler → ℕ → QueuePolicy → Request → Type 0
Served s now_ms fifo r = Heads (Earlier r) s.queues
Served s now_ms wfq r =
    Heads
      (λ x.
        (at_or_zero r.request_id s.start_time < at_or_zero x.request_id s.start_time)
        ⊎ ((at_or_zero r.request_id s.start_time ≡ at_or_zero x.request_id s.start_time)
            × Earlier r x))
      s.queues
Served s now_ms priority_aging r =
    All
      (λ q.
        All
          (λ x.
            (urgency s.aging_per_second now_ms x < urgency s.aging_per_second now_ms r)
            ⊎ ((urgency s.aging_per_second now_ms x ≡ urgency s.aging_per_second now_ms r)
                × Earlier r x))
          q.1)
      s.queues

module _ (P : Request → Type 0) where
  pub heads-Heads :
      (queues : List (ℕ × List Request)) → All (λ c. P c.1) (heads queues) → Heads P queues
  unfolding heads
  heads-Heads [] all = tt
  heads-Heads ((t, []) ∷ queues) all = heads-Heads queues all
  heads-Heads ((t, x ∷ q) ∷ queues) all = (all.0, heads-Heads queues all.1)

  queue-All :
      (t : ℕ) (q : List Request) (cs : List (ℕ × Request))
      → All (λ c. P c.1) (of_tenant t q ++ cs)
      → All P q × All (λ c. P c.1) cs
  queue-All t [] cs all = (tt, all)
  queue-All t (x ∷ q) cs all = let rest = queue-All t q cs all.1 in ((all.0, rest.0), rest.1)

  pub everyone-All :
      (queues : List (ℕ × List Request))
      → All (λ c. P c.1) (everyone queues)
      → All (λ q. All P q.1) queues
  unfolding everyone
  everyone-All [] all = tt
  everyone-All ((t, q) ∷ queues) all =
      let (here, rest) = queue-All t q (everyone queues) all in (here, everyone-All queues rest)
