-- ===== src/Jobs/Queue/Order.antt =====
-- What `get` hands out: the least item of all heaps, and no item is lost or made up.
use mathlib.Core.List.{Perm}
use agent_learn.Base.{
  ℕ, ◌<◌, ◌≤◌, ◌≡◌, refl, subst, inl, inr, true, false, some, List, [], ◌∷◌, ◌++◌, arith, ◌==◌,
  Bool-cases, lookup, insert, insert-Unique, All, All-append,
}
use agent_learn.Jobs.Queue.{
  Item, Queue, heads, min_from, pick_tenant, has_items, pop_tenant, new, get, depth, depth_of, item,
}
use agent_learn.Jobs.Queue.Heaps.{
  NotBefore, IsHeap, items, Inv, heap_at-some, insert-tail-perm, pick-least,
}

module _ (P : Item → Type 0) where
  All-first : (xs ys : List Item) → All P (xs ++ ys) → All P xs
  All-first [] ys all = tt
  All-first (x ∷ xs) ys all = (all.0, All-first xs ys all.1)

  All-rest : (xs ys : List Item) → All P (xs ++ ys) → All P ys
  All-rest [] ys all = all
  All-rest (x ∷ xs) ys all = All-rest xs ys all.1

-- One `heappop`, on a heap whose head is known.
Popped : Queue → ℕ → ℕ → Item → List Item → Queue
Popped q rr t x xs = record q { heaps = insert t xs q.heaps; rr_index = rr }

pub insert-ordered :
    (t : ℕ) (h : List Item) (m : List (ℕ × List Item))
    → IsHeap h
    → All (λ e. IsHeap e.1) m
    → All (λ e. IsHeap e.1) (insert t h m)
unfolding insert
insert-ordered t h [] o all = (o, tt)
insert-ordered t h ((u, g) ∷ m) o all = elim (Bool-cases (u == t)) [
  | inl hit ↦ rw hit (o, all.1)
  | inr miss ↦ rw miss (all.0, insert-ordered t h m o all.1)
]

pub lookup-ordered :
    (t : ℕ) (h : List Item) (m : List (ℕ × List Item))
    → lookup t m ≡ some h
    → All (λ e. IsHeap e.1) m
    → IsHeap h
unfolding lookup
lookup-ordered t h [] e all = cc
lookup-ordered t h ((u, g) ∷ m) e all = elim (Bool-cases (u == t)) [
  | inl hit ↦ let same : g ≡ h = ground arith in subst IsHeap same all.0
  | inr miss ↦ lookup-ordered t h m (ground arith) all.1
]

pub items-insert-All :
    (P : Item → Type 0) (t : ℕ) (h : List Item) (m : List (ℕ × List Item))
    → All P h
    → All P (items m)
    → All P (items (insert t h m))
unfolding insert items
items-insert-All P t h [] new all = All-append P h [] new tt
items-insert-All P t h ((u, g) ∷ m) new all = elim (Bool-cases (u == t)) [
  | inl hit ↦ rw hit (All-append P h (items m) new (All-rest P g (items m) all))
  | inr miss ↦ rw miss (
      All-append P g (items (insert t h m)) (All-first P g (items m) all)
        (items-insert-All P t h m new (All-rest P g (items m) all)))
]

pub lookup-All :
    (P : Item → Type 0) (t : ℕ) (h : List Item) (m : List (ℕ × List Item))
    → lookup t m ≡ some h
    → All P (items m)
    → All P h
unfolding lookup items
lookup-All P t h [] e all = cc
lookup-All P t h ((u, g) ∷ m) e all = elim (Bool-cases (u == t)) [
  | inl hit ↦ let same : g ≡ h = ground arith in subst (All P) same (All-first P g (items m) all)
  | inr miss ↦ lookup-All P t h m (ground arith) (All-rest P g (items m) all)
]

pop-Inv :
    (q : Queue) (rr t : ℕ) (x : Item) (xs : List Item)
    → lookup t q.heaps ≡ some (x ∷ xs)
    → Inv q
    → Inv (Popped q rr t x xs)
unfolding Popped
pop-Inv q rr t x xs e v = record {
  unique = insert-Unique t xs q.heaps v.unique;
  ordered = insert-ordered t xs q.heaps (lookup-ordered t (x ∷ xs) q.heaps e v.ordered).1 v.ordered;
  counted =
      items-insert-All (λ y. y.seq ≤ q.seq) t xs q.heaps
        (lookup-All (λ y. y.seq ≤ q.seq) t (x ∷ xs) q.heaps e v.counted).1 v.counted;
}

module _ (q : Queue) (c : Item × ℕ) (cs : List (Item × ℕ)) (e : heads q.heaps ≡ c ∷ cs) where
  has_items-heads : has_items q ≡ true
  unfolding has_items
  has_items-heads = rw (e, has_items)

  pick_tenant-unfair : q.fair ≡ false → pick_tenant q ≡ (some (min_from c cs).1, q.rr_index)
  unfolding pick_tenant
  pick_tenant-unfair unfair = ground arith

  get-picked :
      (t rr : ℕ) (x : Item) (xs : List Item)
      → pick_tenant q ≡ (some t, rr)
      → lookup t q.heaps ≡ some (x ∷ xs)
      → get q ≡ item x (Popped q rr t x xs)
  unfolding get Popped
  get-picked t rr x xs pick found =
      rw (get, has_items-heads, pick)
        (unfold pop_tenant in rw (heap_at-some t (x ∷ xs) q.heaps found))

depth-heads : (m : List (ℕ × List Item)) → heads m ≡ [] → depth_of m ≡ 0
unfolding heads depth_of
depth-heads [] e = refl
depth-heads ((t, []) ∷ m) e = omega (arith, depth-heads m e)
depth-heads ((t, x ∷ xs) ∷ m) e = cc

depth-cons :
    (q : Queue) → 0 < depth q → (c : Item × ℕ) × (cs : List (Item × ℕ)) × (heads q.heaps ≡ c ∷ cs)
unfolding depth
depth-cons q h = go (heads q.heaps) refl
  where
    go :
        (l : List (Item × ℕ))
        → heads q.heaps ≡ l
        → (c : Item × ℕ) × (cs : List (Item × ℕ)) × (heads q.heaps ≡ c ∷ cs)
    go [] e = absurd (omega (arith, depth-heads q.heaps e))
    go (c ∷ cs) e = (c, cs, e)

-- In a queue that is not fair and not empty, `get` takes an item that no queued item comes before:
-- none has a lesser priority number, nor the same one and an earlier turn. Nothing else leaves the
-- queue, and it stays well formed.
pub get-least :
    (q : Queue)
    → Inv q
    → q.fair ≡ false
    → 0 < depth q
    → (x : Item) × (q' : Queue) × (get q ≡ item x q')
      × All (NotBefore x) (items q.heaps)
      × Perm (items q.heaps) (x ∷ items q'.heaps)
      × Inv q'
unfolding Popped
get-least q v unfair busy =
    let (c, cs, e) = depth-cons q busy in
    let ((xs, found), least) = pick-least q c cs v e in
    let (x, t) = min_from c cs in
    (
      x,
      Popped q q.rr_index t x xs,
      get-picked q c cs e t q.rr_index x xs (pick_tenant-unfair q c cs e unfair) found,
      least,
      insert-tail-perm t x xs q.heaps found,
      pop-Inv q q.rr_index t x xs found v,
    )
