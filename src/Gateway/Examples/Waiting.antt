-- ===== src/Gateway/Examples/Waiting.antt =====
-- The scheduler at concrete requests.
use agent_learn.Base.{
  arith, sym, ◌+◌, ◌≤◌, ◌≡◌, refl, not, some, List, [], ◌∷◌, filter, length, lookup,
}
use agent_learn.Gateway.Request.{Request, priority_aging, wfq}
use agent_learn.Gateway.Scheduler.{Scheduler, new, pop, sweep_expired}
use agent_learn.Gateway.Scheduler.Depth.{total, run, enqueues, pops, sweeps, depth_bound}
use agent_learn.Gateway.Scheduler.Depth
use agent_learn.Gateway.Scheduler.Sweep.{queued, expired, sweep_expired-filter}
use agent_learn.Gateway.Scheduler.Choice.{pop-least}
use agent_learn.Gateway.Scheduler.Policy.{Served}
use agent_learn.Gateway.Examples.{request}

abbrev calls : List Depth.Call
calls =
    enqueues (request 1) ∷ enqueues (request 2) ∷ pops 200 ∷ enqueues (request 3) ∷ sweeps 6000 ∷ []

depth_bound_example :
    ((run (new 2 wfq 500) calls).depth ≡ total (run (new 2 wfq 500) calls).queues)
    × ((run (new 2 wfq 500) calls).depth ≤ 2)
depth_bound_example = depth_bound 2 500 wfq calls

-- Two requests of tenant 2 wait, the later one with the earlier deadline.
abbrev waiting : Scheduler
waiting = record {
  capacity = 4;
  policy = priority_aging;
  aging_per_second = 500;
  queues =
      (2, record (request 1) { arrived_ms = 300 } ∷ record (request 2) { deadline_ms = 900 } ∷ [])
      ∷ [];
  depth = 2;
  vtime_global = 0;
  last_finish = [];
  start_time = [];
  enqueued = 2;
  rejected_full = 0;
  swept = 0;
}

sweep_expired-filter_example :
    ((sweep_expired waiting 1000).1 ≡ filter (expired 1000) (queued waiting.queues))
    × (queued (sweep_expired waiting 1000).0.queues
        ≡ filter (λ r. not (expired 1000 r)) (queued waiting.queues))
    × ((sweep_expired waiting 1000).0.swept
        ≡ 0 + length (filter (expired 1000) (queued waiting.queues)))
sweep_expired-filter_example = sweep_expired-filter waiting 1000

waiting-total : total waiting.queues ≡ 2
unfolding total
waiting-total = refl

pop-least_example :
    (r : Request) × ((pop waiting 1000).1 ≡ some r) × Served waiting 1000 priority_aging r
unfolding lookup
pop-least_example = pop-least waiting 1000 (refl, tt) (sym waiting-total) (omega arith)
