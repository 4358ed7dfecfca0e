-- ===== src/Jobs/Queue/Arrival.antt =====
-- What `publish` adds.
use mathlib.Core.List.{Perm, perm_middle}
use mathlib.Core.List.Perm
use agent_learn.Base.{
  ℕ, suc, ◌<◌, ◌≤◌, ◌≡◌, refl, inl, inr, Bool, true, none, some, List, [], ◌∷◌, arith, ◌==◌,
  Bool-cases, Option-cases, lookup, insert, insert-Unique, All, All-map,
}
use agent_learn.Jobs.Queue.{Item, Queue, item_lt, heap_push, heap_at, new, publish}
use agent_learn.Jobs.Queue.Heaps.{
  IsHeap, items, Inv, heap_push-All, heap_push-IsHeap, heap_push-perm, heap_at-some, heap_at-none,
}
use agent_learn.Jobs.Queue.Order.{insert-ordered, lookup-ordered, items-insert-All, lookup-All}

insert-new-perm :
    (t : ℕ) (x : Item) (m : List (ℕ × List Item))
    → lookup t m ≡ none
    → Perm (items (insert t (x ∷ []) m)) (x ∷ items m)
unfolding lookup insert items
insert-new-perm t x [] e = Perm.refl (x ∷ [])
insert-new-perm t x ((u, h) ∷ m) e = elim (Bool-cases (u == t)) [
  | inl hit ↦ absurd (ground arith)
  | inr miss ↦ rw miss (
      Perm.trans (Perm.append (Perm.refl h) (insert-new-perm t x m (ground arith)))
        (perm_middle h (items m)))
]

insert-push-perm :
    (t : ℕ) (x : Item) (h : List Item) (m : List (ℕ × List Item))
    → lookup t m ≡ some h
    → Perm (items (insert t (heap_push x h) m)) (x ∷ items m)
unfolding lookup insert items
insert-push-perm t x h [] e = cc
insert-push-perm t x h ((u, g) ∷ m) e = elim (Bool-cases (u == t)) [
  | inl hit ↦
      let same : h ≡ g = ground arith in
      rw (hit, same) (Perm.append (heap_push-perm x g) (Perm.refl (items m)))
  | inr miss ↦ rw miss (
      Perm.trans (Perm.append (Perm.refl g) (insert-push-perm t x h m (ground arith)))
        (perm_middle g (items m)))
]

-- What `publish` puts into the dict: a heap that is well formed, whose items are `new` and others.
push-at :
    (t : ℕ) (x : Item) (n : ℕ) (m : List (ℕ × List Item))
    → All (λ e. IsHeap e.1) m
    → All (λ y. y.seq ≤ n) (items m)
    → x.seq ≡ suc n
    → Perm (items (insert t (heap_push x (heap_at t m)) m)) (x ∷ items m)
      × IsHeap (heap_push x (heap_at t m))
      × All (λ y. y.seq ≤ suc n) (heap_push x (heap_at t m))
push-at t x n m ordered counted h = elim (Option-cases (lookup t m)) [
  | inl e ↦
      rw (heap_at-none t m e)
        (unfold heap_push in (insert-new-perm t x m e, (tt, tt), (omega arith, tt)))
  | inr (g, e) ↦ rw (heap_at-some t g m e) (
    insert-push-perm t x g m e,
    heap_push-IsHeap x g (lookup-ordered t g m e ordered),
    heap_push-All (λ y. y.seq ≤ suc n) x g (omega arith)
        (All-map (λ y p. omega arith) g (lookup-All (λ y. y.seq ≤ n) t g m e counted)),
  )
]

-- In a well-formed queue, `publish` adds one item and loses none. In the order of the items, the new
-- one comes before a queued one only if its priority number is lesser; the queue stays well formed.
pub publish-last :
    (q : Queue) (job_id priority tenant : ℕ)
    → Inv q
    → let new : Item = record {
      priority = priority;
      seq = suc q.seq;
      tenant = tenant;
      job_id = job_id;
    } in
      Perm (items (publish q job_id priority tenant).heaps) (new ∷ items q.heaps)
      × All (λ y. item_lt new y ≡ true → priority < y.priority) (items q.heaps)
      × Inv (publish q job_id priority tenant)
unfolding publish
publish-last q job_id priority tenant v =
    let new : Item = record {
      priority = priority;
      seq = suc q.seq;
      tenant = tenant;
      job_id = job_id;
    } in
    let (grown, heap, counted) = push-at tenant new q.seq q.heaps v.ordered v.counted refl in
    (
      grown,
      All-map (λ y h. ground arith) (items q.heaps) v.counted,
      record {
        unique = insert-Unique tenant _ q.heaps v.unique;
        ordered = insert-ordered tenant _ q.heaps heap v.ordered;
        counted =
            items-insert-All (λ y. y.seq ≤ suc q.seq) tenant _ q.heaps counted
              (All-map (λ y h. omega arith) (items q.heaps) v.counted);
      },
    )

pub new-Inv : (fair : Bool) → Inv (new fair)
unfolding new items
new-Inv fair = record { unique = tt; ordered = tt; counted = tt }
