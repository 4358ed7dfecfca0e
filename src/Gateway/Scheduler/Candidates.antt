-- ===== src/Gateway/Scheduler/Candidates.antt =====
-- Every candidate of a policy can be taken from the queue of its tenant.
use agent_learn.Base.{
  ℕ, ◌≡◌, refl, sym, subst, ◌∙◌, inl, inr, Bool, true, false, none, some, List, [], ◌∷◌, arith,
  ◌==◌, ==_iff, ==_refl, Bool-cases, All, All-map, All-append, Unique, lookup, if◌then◌else◌,
}
use agent_learn.Gateway.Request.{Request, QueuePolicy, fifo, priority_aging, wfq}
use agent_learn.Gateway.Scheduler.{
  queue_of, of_tenant, everyone, heads, candidates, best_of, request_eq, remove_from, bool_eq,
}
use agent_learn.Gateway.Scheduler.Depth.{total, queue_of-cons}

bool_eq_refl : (b : Bool) → bool_eq b b ≡ true
bool_eq_refl true = refl
bool_eq_refl false = refl

request_eq_refl : (r : Request) → request_eq r r ≡ true
unfolding request_eq
request_eq_refl r = simp (==_refl, bool_eq_refl)

abbrev Takes : List Request → Request → Type 0
Takes q r = (left : List Request) × (remove_from r q ≡ some left)

Takes-head : (r : Request) (q : List Request) → Takes (r ∷ q) r
unfolding remove_from
Takes-head r q = (q, rw (request_eq_refl r) refl)

Takes-cons : (r x : Request) (q : List Request) → Takes q x → Takes (r ∷ q) x
unfolding remove_from
Takes-cons r x q (left, found) = elim (Bool-cases (request_eq r x)) [
  | inl e ↦ (q, rw e refl)
  | inr e ↦ (r ∷ left, rw (e, found) refl)
]

-- A candidate that the queue of its tenant gives up.
abbrev pub Found : List (ℕ × List Request) → ℕ × Request → Type 0
Found m c = Takes (queue_of c.0 m) c.1

Found-first :
    (t : ℕ) (q : List Request) (m : List (ℕ × List Request)) (r : Request)
    → Takes q r
    → Found ((t, q) ∷ m) (t, r)
Found-first t q m r takes =
    subst (λ l. Takes l r) (sym (queue_of-cons t t q m ∙ rw (==_refl t) refl)) takes

queue_of-absent : (t : ℕ) (m : List (ℕ × List Request)) → lookup t m ≡ none → queue_of t m ≡ []
queue_of-absent t m e = rw (e, queue_of) refl

Found-cons :
    (t : ℕ) (q : List Request) (m : List (ℕ × List Request))
    → lookup t m ≡ none
    → (c : ℕ × Request) → Found m c
    → Found ((t, q) ∷ m) c
unfolding remove_from
Found-cons t q m fresh c (left, found) = elim (Bool-cases (t == c.0)) [
  | inl e ↦
      let same : lookup c.0 m ≡ none = subst (λ k. lookup k m ≡ none) ((==_iff t c.0).0 e) fresh in
      let gone : remove_from c.1 [] ≡ some left =
        subst (λ l. remove_from c.1 l ≡ some left) (queue_of-absent c.0 m same) found in
      absurd (ground arith)
  | inr e ↦ subst (λ l. Takes l c.1) (sym (queue_of-cons c.0 t q m ∙ rw e refl)) (left, found)
]

of_tenant-Found :
    (t : ℕ) (q all : List Request) (m : List (ℕ × List Request))
    → ((r : Request) → Takes q r → Takes all r)
    → All (Found ((t, all) ∷ m)) (of_tenant t q)
of_tenant-Found t [] all m grow = tt
of_tenant-Found t (r ∷ q) all m grow = (
  Found-first t all m r (grow r (Takes-head r q)),
  of_tenant-Found t q all m (λ x takes. grow x (Takes-cons r x q takes)),
)

everyone-Found : (m : List (ℕ × List Request)) → Unique m → All (Found m) (everyone m)
unfolding everyone
everyone-Found [] u = tt
everyone-Found ((t, q) ∷ m) u =
    All-append (Found ((t, q) ∷ m)) (of_tenant t q) (everyone m)
      (of_tenant-Found t q q m λ r takes. takes)
      (All-map (Found-cons t q m u.0) (everyone m) (everyone-Found m u.1))

heads-Found : (m : List (ℕ × List Request)) → Unique m → All (Found m) (heads m)
unfolding heads
heads-Found [] u = tt
heads-Found ((t, []) ∷ m) u = All-map (Found-cons t [] m u.0) (heads m) (heads-Found m u.1)
heads-Found ((t, r ∷ q) ∷ m) u = (
  Found-first t (r ∷ q) m r (Takes-head r q),
  All-map (Found-cons t (r ∷ q) m u.0) (heads m) (heads-Found m u.1),
)

pub candidates-Found :
    (p : QueuePolicy) (m : List (ℕ × List Request)) → Unique m → All (Found m) (candidates p m)
unfolding candidates
candidates-Found fifo m u = heads-Found m u
candidates-Found wfq m u = heads-Found m u
candidates-Found priority_aging m u = everyone-Found m u

everyone-none : (m : List (ℕ × List Request)) → everyone m ≡ [] → total m ≡ 0
unfolding everyone total
everyone-none [] e = refl
everyone-none ((t, []) ∷ m) e = let rest = everyone-none m e in omega arith
everyone-none ((t, r ∷ q) ∷ m) e = absurd (ground arith)

heads-none : (m : List (ℕ × List Request)) → heads m ≡ [] → total m ≡ 0
unfolding heads total
heads-none [] e = refl
heads-none ((t, []) ∷ m) e = let rest = heads-none m e in omega arith
heads-none ((t, r ∷ q) ∷ m) e = absurd (ground arith)

pub candidates-none :
    (p : QueuePolicy) (m : List (ℕ × List Request)) → candidates p m ≡ [] → total m ≡ 0
unfolding candidates
candidates-none fifo m e = heads-none m e
candidates-none wfq m e = heads-none m e
candidates-none priority_aging m e = everyone-none m e

pub best_of-All :
    (P : ℕ × Request → Type 0) (lt : Request → Request → Bool) (b : ℕ × Request)
    → (cs : List (ℕ × Request)) → All P (b ∷ cs)
    → P (best_of lt b cs)
unfolding best_of
best_of-All P lt b [] all = all.0
best_of-All P lt b (c ∷ cs) all =
    best_of-All P lt (if lt c.1 b.1 then c else b) cs (picked (lt c.1 b.1), all.1.1)
  where
    picked : (first : Bool) → P (if first then c else b)
    picked true = all.1.0
    picked false = all.0
