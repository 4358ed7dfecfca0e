-- ===== src/Jobs/Queue/Heaps.antt =====
-- The heaps of the queue and the least of their heads.
use mathlib.Core.List.{Perm, perm_middle}
use mathlib.Core.List.Perm
use agent_learn.Base.{
  ℕ, ◌≤◌, ◌≡◌, sym, subst, inl, inr, true, false, none, some, List, [], ◌∷◌, ◌++◌, arith, ◌==◌,
  ==_refl, Bool-cases, lookup, insert, Unique, All, All-map, All-append,
}
use agent_learn.Jobs.Queue.{Item, Queue, item_lt, entry_lt, heap_push, heap_at, heads, min_from}

-- `x` does not come before `y`.
abbrev pub NotBefore : Item → Item → Type 0
NotBefore x y = item_lt y x ≡ false

abbrev pub IsHeap : List Item → Type 0
IsHeap [] = Unit
IsHeap (x ∷ xs) = All (NotBefore x) xs × IsHeap xs

-- All items of a dict of heaps.
unfoldable pub items : List (ℕ × List Item) → List Item
items [] = []
items ((t, h) ∷ m) = h ++ items m

pub record Inv (q : Queue) : Type 0 where
  pub unique : Unique q.heaps
  pub ordered : All (λ e. IsHeap e.1) q.heaps
  pub counted : All (λ x. x.seq ≤ q.seq) (items q.heaps)

item_lt_trans : (x y z : Item) → item_lt y x ≡ false → item_lt z y ≡ false → item_lt z x ≡ false
item_lt_trans x y z p q = ground arith

item_lt_asym : (x y : Item) → item_lt x y ≡ true → item_lt y x ≡ false
item_lt_asym x y p = ground arith

entry_lt_trans :
    (x y z : Item × ℕ) → entry_lt y x ≡ false → entry_lt z y ≡ false → entry_lt z x ≡ false
entry_lt_trans x y z p q = ground arith

entry_lt_refl : (x : Item × ℕ) → entry_lt x x ≡ false
entry_lt_refl x = ground arith

entry_lt_asym : (x y : Item × ℕ) → entry_lt x y ≡ true → entry_lt y x ≡ false
entry_lt_asym x y p = ground arith

pub heap_push-All :
    (P : Item → Type 0) (x : Item) (h : List Item) → P x → All P h → All P (heap_push x h)
unfolding heap_push
heap_push-All P x [] p all = (p, tt)
heap_push-All P x (y ∷ ys) p all = ground (arith, heap_push-All P x ys p all.1)

pub heap_push-IsHeap : (x : Item) (h : List Item) → IsHeap h → IsHeap (heap_push x h)
unfolding heap_push
heap_push-IsHeap x [] o = (tt, tt)
heap_push-IsHeap x (y ∷ ys) o = elim (Bool-cases (item_lt x y)) [
  | inl lt ↦ rw lt (
    (item_lt_asym x y lt, All-map (λ z p. item_lt_trans x y z (item_lt_asym x y lt) p) ys o.0),
    o,
  )
  | inr ge ↦ rw ge (heap_push-All (NotBefore y) x ys ge o.0, heap_push-IsHeap x ys o.1)
]

pub heap_push-perm : (x : Item) (h : List Item) → Perm (heap_push x h) (x ∷ h)
unfolding heap_push
heap_push-perm x [] = Perm.refl (x ∷ [])
heap_push-perm x (y ∷ ys) = elim (Bool-cases (item_lt x y)) [
  | inl lt ↦ rw lt (Perm.refl (x ∷ y ∷ ys))
  | inr ge ↦ rw ge (Perm.trans (Perm.cons y (heap_push-perm x ys)) (Perm.swap x y ys))
]

-- The least entry of a list: it is one of them, and none is before it.
min_from-All :
    (P : Item × ℕ → Type 0) (best : Item × ℕ) (cs : List (Item × ℕ))
    → P best
    → All P cs
    → P (min_from best cs)
unfolding min_from
min_from-All P best [] p all = p
min_from-All P best (c ∷ cs) p all = elim (Bool-cases (entry_lt c best)) [
  | inl lt ↦ rw lt (min_from-All P c cs all.0 all.1)
  | inr ge ↦ rw ge (min_from-All P best cs p all.1)
]

abbrev Above : Item × ℕ → Item × ℕ → Type 0
Above r c = entry_lt c r ≡ false

min_from_taken :
    (best c : Item × ℕ) (cs : List (Item × ℕ))
    → entry_lt c best ≡ true
    → min_from best (c ∷ cs) ≡ min_from c cs
unfolding min_from
min_from_taken best c cs lt = rw lt

min_from_kept :
    (best c : Item × ℕ) (cs : List (Item × ℕ))
    → entry_lt c best ≡ false
    → min_from best (c ∷ cs) ≡ min_from best cs
unfolding min_from
min_from_kept best c cs ge = rw ge

min_from-least :
    (best : Item × ℕ) (cs : List (Item × ℕ)) → All (Above (min_from best cs)) (best ∷ cs)
min_from-least best [] = unfold min_from in (entry_lt_refl best, tt)
min_from-least best (c ∷ cs) = elim (Bool-cases (entry_lt c best)) [
  | inl lt ↦
      let ih : All (Above (min_from c cs)) (c ∷ cs) = min_from-least c cs in
      subst (λ r. All (Above r) (best ∷ c ∷ cs)) (sym (min_from_taken best c cs lt))
        (entry_lt_trans (min_from c cs) c best ih.0 (entry_lt_asym c best lt), (ih.0, ih.1))
  | inr ge ↦
      let ih = min_from-least best cs in
      subst (λ r. All (Above r) (best ∷ c ∷ cs)) (sym (min_from_kept best c cs ge))
        (ih.0, (entry_lt_trans (min_from best cs) best c ih.0 ge, ih.1))
]

pub heap_at-some :
    (t : ℕ) (h : List Item) (m : List (ℕ × List Item)) → lookup t m ≡ some h → heap_at t m ≡ h
heap_at-some t h m e = rw (e, heap_at)

pub heap_at-none : (t : ℕ) (m : List (ℕ × List Item)) → lookup t m ≡ none → heap_at t m ≡ []
heap_at-none t m e = rw (e, heap_at)

-- The entries of `heads` are heads of heaps that `lookup` finds.
abbrev HeadOf : List (ℕ × List Item) → Item × ℕ → Type 0
HeadOf m (x, t) = (xs : List Item) × (lookup t m ≡ some (x ∷ xs))

HeadOf-cons :
    (t : ℕ) (h : List Item) (m : List (ℕ × List Item)) (e : Item × ℕ)
    → lookup t m ≡ none
    → HeadOf m e
    → HeadOf ((t, h) ∷ m) e
unfolding lookup
HeadOf-cons t h m (x, u) absent (xs, found) = (xs, ground arith)

heads-HeadOf : (m : List (ℕ × List Item)) → Unique m → All (HeadOf m) (heads m)
unfolding heads
heads-HeadOf [] u = tt
heads-HeadOf ((t, []) ∷ m) u =
    All-map (λ e. HeadOf-cons t [] m e u.0) (heads m) (heads-HeadOf m u.1)
heads-HeadOf ((t, x ∷ xs) ∷ m) u = (
  (xs, unfold lookup in rw (==_refl t)),
  All-map (λ e. HeadOf-cons t (x ∷ xs) m e u.0) (heads m) (heads-HeadOf m u.1),
)

entry_item : (x y : Item) (t u : ℕ) → entry_lt (x, t) (y, u) ≡ false → item_lt x y ≡ false
entry_item x y t u p = ground arith

-- What is not before any head is not before any item.
heads-items :
    (r : Item × ℕ) (m : List (ℕ × List Item))
    → All (λ e. IsHeap e.1) m
    → All (Above r) (heads m)
    → All (NotBefore r.0) (items m)
unfolding heads items
heads-items r [] o all = tt
heads-items r ((t, []) ∷ m) o all = heads-items r m o.1 all
heads-items r ((t, x ∷ xs) ∷ m) o all =
    let first : item_lt x r.0 ≡ false = entry_item x r.0 t r.1 all.0 in
    (
      first,
      All-append (NotBefore r.0) xs (items m)
          (All-map (λ y p. item_lt_trans r.0 x y first p) xs o.0.0) (heads-items r m o.1 all.1),
    )

-- Taking the head off one heap.
pub insert-tail-perm :
    (t : ℕ) (x : Item) (xs : List Item) (m : List (ℕ × List Item))
    → lookup t m ≡ some (x ∷ xs)
    → Perm (items m) (x ∷ items (insert t xs m))
unfolding lookup insert items
insert-tail-perm t x xs [] e = cc
insert-tail-perm t x xs ((u, h) ∷ m) e = elim (Bool-cases (u == t)) [
  | inl hit ↦
      let same : h ≡ x ∷ xs = ground arith in rw (hit, same) (Perm.refl (x ∷ (xs ++ items m)))
  | inr miss ↦ rw miss (
      Perm.trans (Perm.append (Perm.refl h) (insert-tail-perm t x xs m (ground arith)))
        (perm_middle h (items (insert t xs m))))
]

-- A least pick: the heap of the picked tenant begins with an item that no item of the queue
-- comes before.
pub pick-least :
    (q : Queue) (c : Item × ℕ) (cs : List (Item × ℕ))
    → Inv q
    → heads q.heaps ≡ c ∷ cs
    → HeadOf q.heaps (min_from c cs) × All (NotBefore (min_from c cs).0) (items q.heaps)
pick-least q c cs v e =
    let found = subst (All (HeadOf q.heaps)) e (heads-HeadOf q.heaps v.unique) in
    (
      min_from-All (HeadOf q.heaps) c cs found.0 found.1,
      heads-items (min_from c cs) q.heaps v.ordered
          (subst (All (Above (min_from c cs))) (sym e) (min_from-least c cs)),
    )
