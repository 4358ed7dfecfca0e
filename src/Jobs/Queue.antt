-- ===== src/Jobs/Queue.antt =====
-- app/queue/memory.py, `MemoryQueue`: one heap of job ids for each tenant. A heap of `heapq` is seen
-- through its contract, the items in order with the least at the head; a priority is a natural
-- number, and the lesser comes first.
pub mod Heaps
pub mod Order
pub mod Arrival
use agent_learn.Base.{
  ℕ, suc, ◌+◌, ◌%◌, Bool, true, false, not, ◌&&◌, ◌||◌, Option, none, some, List, [], ◌∷◌, ltb,
  ◌==◌, if◌then◌else◌, lookup, insert, length,
}

-- `_Item`, ordered by its first two fields.
pub record Item : Type 0 where
  pub priority : ℕ
  pub seq : ℕ
  pub tenant : ℕ
  pub job_id : ℕ

abbrev pub item_lt : Item → Item → Bool
item_lt a b = ltb a.priority b.priority || (a.priority == b.priority && ltb a.seq b.seq)

abbrev item_eq : Item → Item → Bool
item_eq a b = a.priority == b.priority && a.seq == b.seq

pub record Queue : Type 0 where
  pub fair : Bool
  pub heaps : List (ℕ × List Item)
  pub seq : ℕ
  pub closed : Bool
  pub rr_index : ℕ

unfoldable pub new : Bool → Queue
new fair = record { fair = fair; heaps = []; seq = 0; closed = false; rr_index = 0 }

-- `heappush`.
unfoldable pub heap_push : Item → List Item → List Item
heap_push x [] = x ∷ []
heap_push x (y ∷ ys) = if item_lt x y then x ∷ y ∷ ys else y ∷ heap_push x ys

abbrev pub heap_at : ℕ → List (ℕ × List Item) → List Item
heap_at t heaps = elim (lookup t heaps) [ none ↦ [] | some h ↦ h ]

unfoldable pub publish : Queue → ℕ → ℕ → ℕ → Queue
publish q job_id priority tenant =
    let item : Item = record {
      priority = priority;
      seq = suc q.seq;
      tenant = tenant;
      job_id = job_id;
    } in
    record q {
      seq = suc q.seq;
      heaps = insert tenant (heap_push item (heap_at tenant q.heaps)) q.heaps;
    }

-- The heads of the heaps that are not empty, with their tenants, in the order of the dict.
unfoldable pub heads : List (ℕ × List Item) → List (Item × ℕ)
heads [] = []
heads ((t, []) ∷ m) = heads m
heads ((t, x ∷ xs) ∷ m) = (x, t) ∷ heads m

-- `min` over pairs of an item and a tenant.
abbrev pub entry_lt : Item × ℕ → Item × ℕ → Bool
entry_lt (x, t) (y, u) = item_lt x y || (item_eq x y && ltb t u)

unfoldable pub min_from : Item × ℕ → List (Item × ℕ) → Item × ℕ
min_from best [] = best
min_from best (c ∷ cs) = min_from (if entry_lt c best then c else best) cs

unfoldable pub nth_tenant : List (Item × ℕ) → ℕ → Option ℕ
nth_tenant [] i = none
nth_tenant ((x, t) ∷ cs) i = elim i [ ℕ.zero ↦ some t | ℕ.suc k ↦ nth_tenant cs k ]

unfoldable pub has_items : Queue → Bool
has_items q = elim (heads q.heaps) [ [] ↦ false | _ ↦ true ]

-- `_pick_tenant`, with the new value of the round-robin pointer.
unfoldable pub pick_tenant : Queue → Option ℕ × ℕ
pick_tenant q =
    if q.fair
    then (let i = q.rr_index % length (heads q.heaps) in (nth_tenant (heads q.heaps) i, suc i))
    else (elim (heads q.heaps) [ [] ↦ none | c ∷ cs ↦ some (min_from c cs).1 ], q.rr_index)

pub data Got : Type 0 where
  item : Item → Queue → Got
  waits cancelled : Got

-- `heappop` on the heap of a tenant.
unfoldable pub pop_heap : Queue → ℕ → ℕ → List Item → Got
pop_heap q rr t [] = waits
pop_heap q rr t (x ∷ xs) = item x (record q { heaps = insert t xs q.heaps; rr_index = rr })

unfoldable pub pop_tenant : Queue → Option ℕ × ℕ → Got
unfolding pop_heap
pop_tenant q (none, rr) = waits
pop_tenant q (some t, rr) = pop_heap q rr t (heap_at t q.heaps)

-- One round of `get`, which waits for the condition and looks again.
unfoldable pub get : Queue → Got
unfolding has_items pop_tenant
get q = if has_items q then pop_tenant q (pick_tenant q) else if q.closed then cancelled else waits

unfoldable pub close : Queue → Queue
close q = record q { closed = true }

unfoldable pub depth_of : List (ℕ × List Item) → ℕ
depth_of [] = 0
depth_of ((t, h) ∷ m) = length h + depth_of m

unfoldable pub depth : Queue → ℕ
depth q = depth_of q.heaps
