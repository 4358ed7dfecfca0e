-- ===== src/Gateway/Scheduler/Choice.antt =====
-- Whom `pop` takes.
use agent_learn.Base.{
  ◌≢◌, ◌<◌, Unique, refl, Option, ℕ, ◌≡◌, sym, ap, subst, inl, inr, Bool, true, false, ◌&&◌, ◌||◌,
  some, List, [], ◌∷◌, arith, ◌==◌, ltb, Bool-cases, All, All-map, if◌then◌else◌,
}
use agent_learn.Gateway.Request.{
  Request, QueuePolicy, fifo, priority_aging, wfq, effective_priority,
}
use agent_learn.Gateway.Scheduler.Policy.{Served, heads-Heads, everyone-All}
use agent_learn.Gateway.Scheduler.Depth.{total}
use agent_learn.Gateway.Scheduler.Candidates.{Found, candidates-Found, candidates-none, best_of-All}
use agent_learn.Gateway.Scheduler.{
  Scheduler, before, candidates, best_of, take_best, choose, pop, at_or_zero, heads, everyone,
}

-- What the three orders share, on numbers: none of three comes before the one ahead of it.
lex_trans :
    (a b c d e f g h i : ℕ)
    → ((ltb a d || (a == d && (ltb b e || (b == e && ltb c f)))) ≡ false)
    → ((ltb d g || (d == g && (ltb e h || (e == h && ltb f i)))) ≡ false)
    → (ltb a g || (a == g && (ltb b h || (b == h && ltb c i)))) ≡ false
lex_trans a b c d e f g h i p q = ground arith

lex_asym :
    (a b c d e f : ℕ)
    → ((ltb a d || (a == d && (ltb b e || (b == e && ltb c f)))) ≡ true)
    → (ltb d a || (d == a && (ltb e b || (e == b && ltb f c)))) ≡ false
lex_asym a b c d e f p = ground arith

-- The same with the first component reversed, for an order by the greatest.
aging_trans :
    (a b c d e f g h i : ℕ)
    → ((ltb d a || (d == a && (ltb b e || (b == e && ltb c f)))) ≡ false)
    → ((ltb g d || (g == d && (ltb e h || (e == h && ltb f i)))) ≡ false)
    → (ltb g a || (g == a && (ltb b h || (b == h && ltb c i)))) ≡ false
aging_trans a b c d e f g h i p q = ground arith

aging_asym :
    (a b c d e f : ℕ)
    → ((ltb d a || (d == a && (ltb b e || (b == e && ltb c f)))) ≡ true)
    → (ltb a d || (a == d && (ltb e b || (e == b && ltb f c)))) ≡ false
aging_asym a b c d e f p = ground arith

before_trans :
    (s : Scheduler) (now_ms : ℕ) (p : QueuePolicy) (x y z : Request)
    → before s now_ms p x y ≡ false
    → before s now_ms p y z ≡ false
    → before s now_ms p x z ≡ false
unfolding before
before_trans s now_ms fifo x y z =
    lex_trans 0 x.arrived_ms x.request_id 0 y.arrived_ms y.request_id 0 z.arrived_ms z.request_id
before_trans s now_ms wfq x y z =
    lex_trans (at_or_zero x.request_id s.start_time) x.arrived_ms x.request_id
      (at_or_zero y.request_id s.start_time) y.arrived_ms y.request_id
      (at_or_zero z.request_id s.start_time) z.arrived_ms z.request_id
before_trans s now_ms priority_aging x y z =
    let e : Request → ℕ = λ r. effective_priority r now_ms s.aging_per_second in
    aging_trans (e x) x.arrived_ms x.request_id (e y) y.arrived_ms y.request_id (e z) z.arrived_ms
      z.request_id

before_asym :
    (s : Scheduler) (now_ms : ℕ) (p : QueuePolicy) (x y : Request)
    → before s now_ms p x y ≡ true
    → before s now_ms p y x ≡ false
unfolding before
before_asym s now_ms fifo x y = lex_asym 0 x.arrived_ms x.request_id 0 y.arrived_ms y.request_id
before_asym s now_ms wfq x y =
    lex_asym (at_or_zero x.request_id s.start_time) x.arrived_ms x.request_id
      (at_or_zero y.request_id s.start_time) y.arrived_ms y.request_id
before_asym s now_ms priority_aging x y =
    let e : Request → ℕ = λ r. effective_priority r now_ms s.aging_per_second in
    aging_asym (e x) x.arrived_ms x.request_id (e y) y.arrived_ms y.request_id

module _ (s : Scheduler) (now_ms : ℕ) (p : QueuePolicy) where
  -- No candidate comes before `r`.
  abbrev Least : Request → List (ℕ × Request) → Type 0
  Least r cs = All (λ c. before s now_ms p c.1 r ≡ false) cs

  before_irrefl : (x : Request) → before s now_ms p x x ≡ false
  before_irrefl x = elim (Bool-cases (before s now_ms p x x)) [
    | inl e ↦ before_asym s now_ms p x x e
    | inr e ↦ e
  ]

  best_of-cons :
      (b c : ℕ × Request) (cs : List (ℕ × Request)) (first : Bool)
      → before s now_ms p c.1 b.1 ≡ first
      → best_of (before s now_ms p) (if first then c else b) cs
        ≡ best_of (before s now_ms p) b (c ∷ cs)
  unfolding best_of
  best_of-cons b c cs first e =
      ap (λ f. best_of (before s now_ms p) (if f then c else b) cs) (sym e)

  best_of-Least :
      (b : ℕ × Request) (cs : List (ℕ × Request))
      → Least (best_of (before s now_ms p) b cs).1 (b ∷ cs)
  unfolding best_of
  best_of-Least b [] = (before_irrefl b.1, tt)
  best_of-Least b (c ∷ cs) = elim (Bool-cases (before s now_ms p c.1 b.1)) [
    | inl e ↦
        let rest = best_of-Least c cs in
        let r = (best_of (before s now_ms p) c cs).1 in
        subst (λ x. Least x.1 (b ∷ c ∷ cs)) (best_of-cons b c cs true e)
          (before_trans s now_ms p b.1 c.1 r (before_asym s now_ms p c.1 b.1 e) rest.0, rest)
    | inr e ↦
        let rest = best_of-Least b cs in
        let r = (best_of (before s now_ms p) b cs).1 in
        subst (λ x. Least x.1 (b ∷ c ∷ cs)) (best_of-cons b c cs false e)
          (rest.0, (before_trans s now_ms p c.1 b.1 r e rest.0, rest.1))
  ]

take_best-Found :
    (s : Scheduler) (c : ℕ × Request) → Found s.queues c → (take_best s c).1 ≡ some c.1
unfolding take_best
take_best-Found s (tenant, req) (left, found) = rw (found, take_best) refl

-- The candidate that is chosen: it is handed out, and no candidate comes before it.
abbrev Chosen : Scheduler → ℕ → Scheduler × Option Request → List (ℕ × Request) → Type 0
Chosen s now_ms answer cs = (r : Request) × (answer.1 ≡ some r) × Least s now_ms s.policy r cs

choose-Chosen :
    (s : Scheduler) (now_ms : ℕ) (cs : List (ℕ × Request))
    → All (Found s.queues) cs
    → cs ≢ []
    → Chosen s now_ms (choose s now_ms cs) cs
unfolding choose
choose-Chosen s now_ms [] found some_one = absurd (some_one refl)
choose-Chosen s now_ms (c ∷ cs) found some_one =
    let best = best_of (before s now_ms s.policy) c cs in
    (
      best.1,
      take_best-Found s best (best_of-All (Found s.queues) (before s now_ms s.policy) c cs found),
      best_of-Least s now_ms s.policy c cs,
    )

-- The order that the code compares with is the one that each policy is to have.
Least-Served :
    (s : Scheduler) (now_ms : ℕ) (p : QueuePolicy) (r : Request)
    → Least s now_ms p r (candidates p s.queues)
    → Served s now_ms p r
unfolding before candidates effective_priority
Least-Served s now_ms fifo r all =
    heads-Heads _ s.queues (All-map (λ c h. ground (arith, h)) (heads s.queues) all)
Least-Served s now_ms wfq r all =
    heads-Heads _ s.queues (All-map (λ c h. ground (arith, h)) (heads s.queues) all)
Least-Served s now_ms priority_aging r all =
    everyone-All _ s.queues (All-map (λ c h. ground (arith, h)) (everyone s.queues) all)

-- When requests are queued, with one queue for each tenant and the depth as their number, `pop`
-- hands one out: under FIFO no head of a queue arrived earlier, under WFQ none has an earlier virtual
-- start, and under priority with aging no queued request at all is more urgent, where urgency is the
-- rank of the priority, CRITICAL above all, and what the request has gained by waiting. Ties go by
-- arrival and then by id.
pub pop-least :
    (s : Scheduler) (now_ms : ℕ)
    → Unique s.queues
    → s.depth ≡ total s.queues
    → 0 < s.depth
    → (r : Request) × ((pop s now_ms).1 ≡ some r) × Served s now_ms s.policy r
unfolding pop
pop-least s now_ms u counted positive =
    let (r, given, least) = chosen in (r, given, Least-Served s now_ms s.policy r least)
  where
    not_empty : (s.depth == 0) ≡ false
    not_empty = ground arith

    chosen : Chosen s now_ms (pop s now_ms) (candidates s.policy s.queues)
    chosen = rw not_empty (
        choose-Chosen s now_ms (candidates s.policy s.queues) (candidates-Found s.policy s.queues u)
          (λ e. let zero_total = candidates-none s.policy s.queues e in absurd (omega arith)))
