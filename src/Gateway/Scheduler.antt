-- ===== src/Gateway/Scheduler.antt =====
-- app/gateway/scheduler.py, `BoundedScheduler`: a queue for each tenant, and three ways to choose who
-- is next. Virtual time is counted in millionths, rounded down.
pub mod Depth
pub mod Weight
pub mod Sweep
pub mod Choice
pub mod Policy
pub mod Candidates
use agent_learn.Base.{
  ℕ, ◌+◌, ◌-◌, ◌*◌, ◌/◌, Bool, true, false, ◌&&◌, ◌||◌, Option, none, some, List, [], ◌∷◌, ◌++◌,
  leb, ltb, ◌==◌, if◌then◌else◌, length, lookup, insert, erase, max,
}
use agent_learn.Gateway.Request.{
  Request, QueuePolicy, fifo, priority_aging, wfq, priority_value, effective_priority,
}

pub record Scheduler : Type 0 where
  pub capacity : ℕ
  pub policy : QueuePolicy
  pub aging_per_second : ℕ
  pub queues : List (ℕ × List Request)
  pub depth : ℕ
  pub vtime_global : ℕ
  pub last_finish : List (ℕ × ℕ)
  pub start_time : List (ℕ × ℕ)
  pub enqueued : ℕ
  pub rejected_full : ℕ
  pub swept : ℕ

unfoldable pub new : ℕ → QueuePolicy → ℕ → Scheduler
new capacity policy aging = record {
  capacity = capacity;
  policy = policy;
  aging_per_second = aging;
  queues = [];
  depth = 0;
  vtime_global = 0;
  last_finish = [];
  start_time = [];
  enqueued = 0;
  rejected_full = 0;
  swept = 0;
}

unfoldable pub is_full : Scheduler → Bool
is_full s = leb s.capacity s.depth

-- `get(key, 0.0)`.
abbrev pub at_or_zero : ℕ → List (ℕ × ℕ) → ℕ
at_or_zero key dict = elim (lookup key dict) [ none ↦ 0 | some v ↦ v ]

-- `1.0 / max(weight, 1e-6)`, of a weight in thousandths.
unfoldable pub slice : ℕ → ℕ
slice weight = if weight == 0 then 1000000000000 else 1000000000 / weight

-- The virtual times of a request that is queued under the policy WFQ.
unfoldable pub stamp : Scheduler → Request → QueuePolicy → Scheduler
stamp s req fifo = s
stamp s req priority_aging = s
stamp s req wfq =
    let start = max (at_or_zero req.tenant_id s.last_finish) s.vtime_global in
    record s {
      last_finish = insert req.tenant_id (start + slice req.tenant_weight) s.last_finish;
      start_time = insert req.request_id start s.start_time;
    }

abbrev pub queue_of : ℕ → List (ℕ × List Request) → List Request
queue_of tenant queues = elim (lookup tenant queues) [ none ↦ [] | some q ↦ q ]

unfoldable pub append_to : Scheduler → Request → Scheduler
append_to s req = record s {
  queues = insert req.tenant_id (queue_of req.tenant_id s.queues ++ req ∷ []) s.queues;
  depth = s.depth + 1;
  enqueued = s.enqueued + 1;
}

unfoldable pub enqueue : Scheduler → Request → Scheduler × Bool
enqueue s req =
    if is_full s
    then (record s { rejected_full = s.rejected_full + 1 }, false)
    else (append_to (stamp s req s.policy) req, true)

-- Pairs of numbers in lexicographic order.
abbrev pair_lt : ℕ × ℕ → ℕ × ℕ → Bool
pair_lt (a, b) (c, d) = ltb a c || (a == c && ltb b d)

abbrev pub arrival : Request → ℕ × ℕ
arrival r = (r.arrived_ms, r.request_id)

abbrev first_then : ℕ → ℕ → Request → Request → Bool
first_then a b x y = ltb a b || (a == b && pair_lt (arrival x) (arrival y))

-- Whether the policy takes `x` rather than `y`.
unfoldable pub before : Scheduler → ℕ → QueuePolicy → Request → Request → Bool
before s now_ms fifo x y = pair_lt (arrival x) (arrival y)
before s now_ms wfq x y =
    first_then (at_or_zero x.request_id s.start_time) (at_or_zero y.request_id s.start_time) x y
before s now_ms priority_aging x y =
    first_then (effective_priority y now_ms s.aging_per_second)
      (effective_priority x now_ms s.aging_per_second) x y

abbrev pub of_tenant : ℕ → List Request → List (ℕ × Request)
of_tenant t [] = []
of_tenant t (r ∷ q) = (t, r) ∷ of_tenant t q

-- All queued requests, and the heads of the queues, each with its tenant.
unfoldable pub everyone : List (ℕ × List Request) → List (ℕ × Request)
everyone [] = []
everyone ((t, q) ∷ queues) = of_tenant t q ++ everyone queues

unfoldable pub heads : List (ℕ × List Request) → List (ℕ × Request)
heads [] = []
heads ((t, []) ∷ queues) = heads queues
heads ((t, r ∷ q) ∷ queues) = (t, r) ∷ heads queues

unfoldable pub candidates : QueuePolicy → List (ℕ × List Request) → List (ℕ × Request)
candidates priority_aging queues = everyone queues
candidates fifo queues = heads queues
candidates wfq queues = heads queues

-- The first of the least candidates.
unfoldable pub best_of : (Request → Request → Bool) → ℕ × Request → List (ℕ × Request) → ℕ × Request
best_of lt best [] = best
best_of lt best (c ∷ cs) = best_of lt (if lt c.1 best.1 then c else best) cs

abbrev pub bool_eq : Bool → Bool → Bool
bool_eq true true = true
bool_eq false false = true
bool_eq true false = false
bool_eq false true = false

-- `==` on requests.
unfoldable pub request_eq : Request → Request → Bool
request_eq a b =
    a.request_id == b.request_id
    && a.tenant_id == b.tenant_id
    && priority_value a.priority == priority_value b.priority
    && a.cache_key == b.cache_key
    && a.semantic_key == b.semantic_key
    && a.arrived_ms == b.arrived_ms
    && a.deadline_ms == b.deadline_ms
    && a.tenant_weight == b.tenant_weight
    && a.attempts == b.attempts
    && bool_eq a.is_retry b.is_retry
    && a.expected_service_ms == b.expected_service_ms
    && bool_eq a.coalescable b.coalescable
    && bool_eq a.degrade b.degrade

-- `list.remove`: the first request that is equal; `none` is its `ValueError`.
unfoldable pub remove_from : Request → List Request → Option (List Request)
remove_from req [] = none
remove_from req (r ∷ q) =
    let rest = remove_from req q in
    if request_eq r req then some q else elim rest [ none ↦ none | some q' ↦ some (r ∷ q') ]

abbrev pub advance : Scheduler → Request → QueuePolicy → Scheduler
advance s req fifo = s
advance s req priority_aging = s
advance s req wfq = record s {
  vtime_global = max s.vtime_global (at_or_zero req.request_id s.start_time);
}

-- What is common to `pop` and `remove` once the queue of the tenant without the request is known.
abbrev pub taken : Scheduler → ℕ → Request → List Request → Scheduler
taken s tenant req left = record s {
  queues = insert tenant left s.queues;
  depth = s.depth - 1;
  start_time = erase req.request_id s.start_time;
}

unfoldable pub take_best : Scheduler → ℕ × Request → Scheduler × Option Request
take_best s (tenant, req) =
    let moved = advance s req s.policy in
    elim (remove_from req (queue_of tenant s.queues)) [
      | none ↦ (moved, none)
      | some left ↦ (taken moved tenant req left, some req)
    ]

unfoldable pub choose : Scheduler → ℕ → List (ℕ × Request) → Scheduler × Option Request
choose s now_ms [] = (s, none)
choose s now_ms (c ∷ cs) = take_best s (best_of (before s now_ms s.policy) c cs)

unfoldable pub pop : Scheduler → ℕ → Scheduler × Option Request
pop s now_ms = if s.depth == 0 then (s, none) else choose s now_ms (candidates s.policy s.queues)

-- One queue of `sweep_expired`: what stays, and what has expired.
unfoldable pub sift : ℕ → List Request → List Request × List Request
sift now_ms [] = ([], [])
sift now_ms (r ∷ q) =
    let rest = sift now_ms q in
    if leb r.deadline_ms now_ms then (rest.0, r ∷ rest.1) else (r ∷ rest.0, rest.1)

unfoldable pub sift_all : ℕ → List (ℕ × List Request) → List (ℕ × List Request) × List Request
sift_all now_ms [] = ([], [])
sift_all now_ms ((t, q) ∷ queues) =
    let here = sift now_ms q in
    let rest = sift_all now_ms queues in ((t, here.0) ∷ rest.0, here.1 ++ rest.1)

unfoldable pub forget : List Request → List (ℕ × ℕ) → List (ℕ × ℕ)
forget [] dict = dict
forget (r ∷ rs) dict = forget rs (erase r.request_id dict)

unfoldable pub sweep_expired : Scheduler → ℕ → Scheduler × List Request
sweep_expired s now_ms =
    let sifted = sift_all now_ms s.queues in
    (
      record s {
        queues = sifted.0;
        depth = s.depth - length sifted.1;
        start_time = forget sifted.1 s.start_time;
        swept = s.swept + length sifted.1;
      },
      sifted.1,
    )

unfoldable pub remove : Scheduler → Request → Scheduler × Bool
remove s req = elim (remove_from req (queue_of req.tenant_id s.queues)) [
  | none ↦ (s, false)
  | some left ↦ (taken s req.tenant_id req left, true)
]
