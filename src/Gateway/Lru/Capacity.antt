-- ===== src/Gateway/Lru/Capacity.antt =====
-- The number of entries of a tier, over any sequence of calls.
use agent_learn.Base.{
  ℕ, suc, ◌≤◌, ◌<◌, ◌≡◌, refl, subst, ◌∙◌, inl, inr, some, List, [], ◌∷◌, arith, ◌==◌, leb, length,
  length-append, lookup, erase, length-erase-le, Bool-cases, Option-cases,
}
use agent_learn.Gateway.Lru.{Entry, Tier, new, to_end, get, trim, put_new, put, invalidate, size}

pub data Call : Type 0 where
  reads : ℕ → ℕ → Call
  writes : Entry → Call
  drops : ℕ → Call

abbrev pub step : Tier → Call → Tier
step t (reads key now_ms) = (get t key now_ms).0
step t (writes entry) = put t entry
step t (drops key) = invalidate t key

pub run : Tier → List Call → Tier
run t [] = t
run t (c ∷ cs) = run (step t c) cs

length-erase-lt :
    (key : ℕ) (e : Entry) (items : List (ℕ × Entry))
    → lookup key items ≡ some e
    → length (erase key items) < length items
unfolding erase lookup
length-erase-lt key e [] found = absurd (ground arith)
length-erase-lt key e ((i, x) ∷ items) found =
    let less = length-erase-le key items in
    elim (Bool-cases (i == key)) [
      | inl h ↦ rw h (omega arith)
      | inr h ↦ rw h (omega (arith, length-erase-lt key e items (rw h at found)))
    ]

length-to_end :
    (key : ℕ) (e x : Entry) (items : List (ℕ × Entry))
    → lookup key items ≡ some e
    → length (to_end key x items) ≤ length items
unfolding to_end
length-to_end key e x items found =
    let less = length-erase-lt key e items found in
    let sum = length-append (erase key items) ((key, x) ∷ []) in omega arith

trim-room :
    (capacity : ℕ) (items : List (ℕ × Entry))
    → 0 < capacity
    → length (trim capacity items).0 < capacity
unfolding trim
trim-room capacity [] room = room
trim-room capacity (x ∷ items) room = elim (Bool-cases (leb capacity (suc (length items)))) [
  | inl h ↦ rw h (trim-room capacity items room)
  | inr h ↦ rw h (ground arith)
]

-- Within its capacity.
abbrev pub Within : Tier → Type 0
Within t = length t.items ≤ t.capacity

get-Within :
    (t : Tier) (key now_ms : ℕ)
    → Within t
    → Within (get t key now_ms).0 × ((get t key now_ms).0.capacity ≡ t.capacity)
unfolding get
get-Within t key now_ms w = elim (Option-cases (lookup key t.items)) [
  | inl e ↦ rw (e, get) (w, refl)
  | inr (x, e) ↦
      let fewer = length-erase-le key t.items in
      let same = length-to_end key x x t.items e in
      elim (Bool-cases (leb x.expires_ms now_ms)) [
        | inl old ↦ rw (e, get, old) (omega arith, refl)
        | inr fresh ↦ rw (e, get, fresh) (omega arith, refl)
      ]
]

put-Within :
    (t : Tier) (x : Entry) → Within t → Within (put t x) × ((put t x).capacity ≡ t.capacity)
unfolding put put_new
put-Within t x w = elim (Bool-cases (leb t.capacity 0)) [
  | inl none_held ↦ rw none_held (w, refl)
  | inr held ↦ elim (Option-cases (lookup x.key t.items)) [
    | inl e ↦
        let room = trim-room t.capacity t.items (ground arith) in
        let sum = length-append (trim t.capacity t.items).0 ((x.key, x) ∷ []) in
        rw (held, e, put) (omega arith, refl)
    | inr (old, e) ↦
        let same = length-to_end x.key old x t.items e in rw (held, e, put) (omega arith, refl)
  ]
]

run-Within :
    (t : Tier) (cs : List Call) → Within t → Within (run t cs) × ((run t cs).capacity ≡ t.capacity)
unfolding run invalidate
run-Within t [] w = (w, refl)
run-Within t (reads key now_ms ∷ cs) w =
    let first = get-Within t key now_ms w in
    let rest = run-Within (get t key now_ms).0 cs first.0 in (rest.0, rest.1 ∙ first.1)
run-Within t (writes x ∷ cs) w =
    let first = put-Within t x w in
    let rest = run-Within (put t x) cs first.0 in (rest.0, rest.1 ∙ first.1)
run-Within t (drops key ∷ cs) w =
    let fewer = length-erase-le key t.items in run-Within (invalidate t key) cs (omega arith)

-- Over any sequence of reads, writes and invalidations, a new tier never holds more entries than
-- its capacity, and its capacity stays what it was.
pub tier_capacity :
    (capacity : ℕ) (cs : List Call)
    → (size (run (new capacity) cs) ≤ capacity) × ((run (new capacity) cs).capacity ≡ capacity)
unfolding new size
tier_capacity capacity cs =
    let all = run-Within (new capacity) cs (omega arith) in
    (subst (λ n. length (run (new capacity) cs).items ≤ n) all.1 all.0, all.1)
