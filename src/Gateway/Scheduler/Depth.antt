-- ===== src/Gateway/Scheduler/Depth.antt =====
-- The counter of the depth, over any sequence of calls.
use agent_learn.Base.{
  ℕ, suc, ◌+◌, ◌≤◌, ◌≡◌, refl, sym, ap, subst, ◌∙◌, inl, inr, Bool, true, false, none, some, List,
  [], ◌∷◌, ◌++◌, arith, ◌==◌, leb, length, length-append, lookup, insert, Bool-cases, Option-cases,
  if◌then◌else◌,
}
use mathlib.Core.Option.{some-injective}
use agent_learn.Gateway.Request.{Request, QueuePolicy, fifo, priority_aging, wfq}
use agent_learn.Gateway.Scheduler.{
  Scheduler, new, is_full, stamp, queue_of, append_to, enqueue, candidates, best_of, before,
  request_eq, remove_from, advance, taken, take_best, choose, pop, sift, sift_all, sweep_expired,
  remove,
}

-- How many requests are queued.
unfoldable pub total : List (ℕ × List Request) → ℕ
total [] = 0
total ((t, q) ∷ queues) = length q + total queues

pub queue_of-cons :
    (t k : ℕ) (q : List Request) (queues : List (ℕ × List Request))
    → queue_of t ((k, q) ∷ queues) ≡ (if k == t then q else queue_of t queues)
unfolding lookup
queue_of-cons t k q queues = opened (k == t)
  where
    opened :
        (here : Bool)
        → (elim (if here then some q else lookup t queues) [ none ↦ [] | some found ↦ found ])
          ≡ (if here then q else queue_of t queues)
    opened true = refl
    opened false = refl

pub total-insert :
    (t : ℕ) (q' : List Request) (queues : List (ℕ × List Request))
    → total (insert t q' queues) + length (queue_of t queues) ≡ total queues + length q'
unfolding total insert lookup
total-insert t q' [] = omega arith
total-insert t q' ((k, q) ∷ queues) =
    let rest = total-insert t q' queues in
    elim (Bool-cases (k == t)) [
      | inl h ↦ rw (queue_of-cons t k q queues, h) (omega arith)
      | inr h ↦ rw (queue_of-cons t k q queues, h) (omega arith)
    ]

pub length-remove_from :
    (req : Request) (q left : List Request)
    → remove_from req q ≡ some left
    → suc (length left) ≡ length q
unfolding remove_from
length-remove_from req [] left h = absurd (ground arith)
length-remove_from req (r ∷ q) left h = elim (Bool-cases (request_eq r req)) [
  | inl e ↦ ap (λ l. suc (length l)) (sym (some-injective q left (rw e at h)))
  | inr e ↦ elim (Option-cases (remove_from req q)) [
    | inl none_left ↦ absurd (ground arith)
    | inr (q', found) ↦
        let same : some (r ∷ q') ≡ some left = rw (e, found) at h in
        let fewer = length-remove_from req q q' found in
        let lengths = ap length (some-injective (r ∷ q') left same) in omega arith
  ]
]

length-sift :
    (now_ms : ℕ) (q : List Request) → length (sift now_ms q).0 + length (sift now_ms q).1 ≡ length q
unfolding sift
length-sift now_ms [] = refl
length-sift now_ms (r ∷ q) =
    let rest = length-sift now_ms q in
    elim (Bool-cases (leb r.deadline_ms now_ms)) [
      | inl e ↦ rw e (omega arith)
      | inr e ↦ rw e (omega arith)
    ]

pub length-sift_all :
    (now_ms : ℕ) (queues : List (ℕ × List Request))
    → total (sift_all now_ms queues).0 + length (sift_all now_ms queues).1 ≡ total queues
unfolding sift_all total
length-sift_all now_ms [] = refl
length-sift_all now_ms ((t, q) ∷ queues) =
    let here = length-sift now_ms q in
    let rest = length-sift_all now_ms queues in
    let sum = length-append (sift now_ms q).1 (sift_all now_ms queues).1 in omega arith

-- The depth is the number of queued requests, within the capacity.
abbrev Counted : Scheduler → Type 0
Counted s = (s.depth ≡ total s.queues) × (s.depth ≤ s.capacity)

pub stamp-same :
    (s : Scheduler) (req : Request) (p : QueuePolicy)
    → ((stamp s req p).depth ≡ s.depth)
      × ((stamp s req p).queues ≡ s.queues)
      × ((stamp s req p).capacity ≡ s.capacity)
unfolding stamp
stamp-same s req fifo = (refl, refl, refl)
stamp-same s req priority_aging = (refl, refl, refl)
stamp-same s req wfq = (refl, refl, refl)

enqueue-Counted :
    (s : Scheduler) (req : Request)
    → Counted s
    → Counted (enqueue s req).0 × ((enqueue s req).0.capacity ≡ s.capacity)
unfolding enqueue is_full append_to
enqueue-Counted s req (counted, room) = elim (Bool-cases (leb s.capacity s.depth)) [
  | inl full ↦ rw full ((counted, room), refl)
  | inr free ↦
      let same = stamp-same s req s.policy in
      let s' = stamp s req s.policy in
      let q = queue_of req.tenant_id s'.queues in
      let sum = total-insert req.tenant_id (q ++ req ∷ []) s'.queues in
      let one = length-append q (req ∷ []) in
      let totals = ap total same.1 in rw free (((omega arith, ground arith)), same.2)
]

taken-Counted :
    (s : Scheduler) (tenant : ℕ) (req : Request) (left : List Request)
    → remove_from req (queue_of tenant s.queues) ≡ some left
    → Counted s
    → Counted (taken s tenant req left)
taken-Counted s tenant req left h (counted, room) =
    let fewer = length-remove_from req (queue_of tenant s.queues) left h in
    let sum = total-insert tenant left s.queues in (omega arith, omega arith)

pub advance-same :
    (s : Scheduler) (req : Request) (p : QueuePolicy)
    → ((advance s req p).depth ≡ s.depth)
      × ((advance s req p).queues ≡ s.queues)
      × ((advance s req p).capacity ≡ s.capacity)
advance-same s req fifo = (refl, refl, refl)
advance-same s req priority_aging = (refl, refl, refl)
advance-same s req wfq = (refl, refl, refl)

sweep_expired-Counted :
    (s : Scheduler) (now_ms : ℕ) → Counted s → Counted (sweep_expired s now_ms).0
unfolding sweep_expired
sweep_expired-Counted s now_ms (counted, room) =
    let sum = length-sift_all now_ms s.queues in (omega arith, omega arith)

remove-Counted :
    (s : Scheduler) (req : Request)
    → Counted s
    → Counted (remove s req).0 × ((remove s req).0.capacity ≡ s.capacity)
unfolding remove
remove-Counted s req c = elim (Option-cases (remove_from req (queue_of req.tenant_id s.queues))) [
  | inl gone ↦ rw (gone, remove) (c, refl)
  | inr (left, found) ↦ rw (found, remove) (taken-Counted s req.tenant_id req left found c, refl)
]

-- The state after one choice, whoever is chosen.
take_best-Counted :
    (s : Scheduler) (c : ℕ × Request)
    → Counted s
    → Counted (take_best s c).0 × ((take_best s c).0.capacity ≡ s.capacity)
unfolding take_best
take_best-Counted s (tenant, req) (counted, room) =
    let moved = advance s req s.policy in
    let same = advance-same s req s.policy in
    let moved_Counted : Counted moved = (
      same.0 ∙ counted ∙ ap total (sym same.1),
      subst (λ d. d ≤ moved.capacity) (sym same.0) (subst (λ k. s.depth ≤ k) (sym same.2) room),
    ) in
    elim (Option-cases (remove_from req (queue_of tenant s.queues))) [
      | inl gone ↦ rw (gone, take_best) (moved_Counted, same.2)
      | inr (left, found) ↦
          rw (found, take_best)
            (
              taken-Counted moved tenant req left
                  (subst (λ queues. remove_from req (queue_of tenant queues) ≡ some left)
                    (sym same.1) found)
                  moved_Counted,
              same.2,
            )
    ]

choose-Counted :
    (s : Scheduler) (now_ms : ℕ) (cs : List (ℕ × Request))
    → Counted s
    → Counted (choose s now_ms cs).0 × ((choose s now_ms cs).0.capacity ≡ s.capacity)
unfolding choose
choose-Counted s now_ms [] c = (c, refl)
choose-Counted s now_ms (x ∷ cs) c = take_best-Counted s (best_of (before s now_ms s.policy) x cs) c

pop-Counted :
    (s : Scheduler) (now_ms : ℕ)
    → Counted s
    → Counted (pop s now_ms).0 × ((pop s now_ms).0.capacity ≡ s.capacity)
unfolding pop
pop-Counted s now_ms c = elim (Bool-cases (s.depth == 0)) [
  | inl e ↦ rw e (c, refl)
  | inr e ↦ rw e (choose-Counted s now_ms (candidates s.policy s.queues) c)
]

pub data Call : Type 0 where
  enqueues removes : Request → Call
  pops sweeps : ℕ → Call

abbrev pub step : Scheduler → Call → Scheduler
step s (enqueues req) = (enqueue s req).0
step s (removes req) = (remove s req).0
step s (pops now_ms) = (pop s now_ms).0
step s (sweeps now_ms) = (sweep_expired s now_ms).0

pub run : Scheduler → List Call → Scheduler
run s [] = s
run s (c ∷ cs) = run (step s c) cs

step-Counted :
    (s : Scheduler) (c : Call) → Counted s → Counted (step s c) × ((step s c).capacity ≡ s.capacity)
unfolding sweep_expired
step-Counted s (enqueues req) c = enqueue-Counted s req c
step-Counted s (removes req) c = remove-Counted s req c
step-Counted s (pops now_ms) c = pop-Counted s now_ms c
step-Counted s (sweeps now_ms) c = (sweep_expired-Counted s now_ms c, refl)

run-Counted :
    (s : Scheduler) (cs : List Call)
    → Counted s
    → Counted (run s cs) × ((run s cs).capacity ≡ s.capacity)
unfolding run
run-Counted s [] c = (c, refl)
run-Counted s (x ∷ cs) c =
    let first = step-Counted s x c in
    let rest = run-Counted (step s x) cs first.0 in (rest.0, rest.1 ∙ first.1)

-- Over any sequence of arrivals, dispatches, removals and sweeps, under each of the policies, the
-- counter of the depth is the number of requests that are queued, and it never exceeds the
-- capacity.
pub depth_bound :
    (capacity aging : ℕ) (policy : QueuePolicy) (cs : List Call)
    → ((run (new capacity policy aging) cs).depth
        ≡ total (run (new capacity policy aging) cs).queues)
      × ((run (new capacity policy aging) cs).depth ≤ capacity)
unfolding new total
depth_bound capacity aging policy cs =
    let all = run-Counted (new capacity policy aging) cs (refl, omega arith) in
    (all.0.0, subst (λ k. (run (new capacity policy aging) cs).depth ≤ k) all.1 all.0.1)
