-- ===== src/Gateway/Lru/Recency.antt =====
-- What the eviction of the least recently used entry leaves in place.
use agent_learn.Base.{
  ℕ, suc, ◌+◌, ◌≤◌, ◌<◌, ◌≡◌, refl, subst, ◌∙◌, ◌≢◌, inl, inr, false, none, some, List, [], ◌∷◌,
  ◌++◌, arith, ◌==◌, ==_refl, leb, length, length-append, lookup, erase, lookup-erase, Bool-cases,
  Option-cases, All, if◌then◌else◌,
}
use native.Mathlib.Nat.{add-suc}
use agent_learn.Gateway.Lru.{Entry, Tier, to_end, get, trim, put_new, put}

-- How many items stand behind the first one under `k`: the more recently used ones.
abbrev behind : ℕ → List (ℕ × Entry) → ℕ
behind k [] = 0
behind k ((j, e) ∷ items) = if j == k then length items else behind k items

-- Under `k` stands `e`, with at most `n` more recently used items.
abbrev Recent : ℕ → Entry → ℕ → List (ℕ × Entry) → Type 0
Recent k e n items = (lookup k items ≡ some e) × (behind k items ≤ n)

length-erase-le : (j : ℕ) (items : List (ℕ × Entry)) → length (erase j items) ≤ length items
unfolding erase
length-erase-le j [] = omega arith
length-erase-le j ((i, x) ∷ items) = ground (arith, length-erase-le j items)

behind-erase-le :
    (j k : ℕ) (items : List (ℕ × Entry)) → j ≢ k → behind k (erase j items) ≤ behind k items
unfolding erase
behind-erase-le j k [] ne = omega arith
behind-erase-le j k ((i, x) ∷ items) ne =
    ground (arith, behind-erase-le j k items ne, length-erase-le j items)

erase-Recent :
    (j k : ℕ) (e : Entry) (n : ℕ) (items : List (ℕ × Entry))
    → j ≢ k
    → Recent k e n items
    → Recent k e n (erase j items)
erase-Recent j k e n items ne (at, le) =
    let less = behind-erase-le j k items ne in
    (lookup-erase j k items ∙ ground (arith), omega arith)

snoc-Recent :
    (j k : ℕ) (e x : Entry) (n : ℕ) (items : List (ℕ × Entry))
    → Recent k e n items
    → Recent k e (suc n) (items ++ (j, x) ∷ [])
unfolding lookup
snoc-Recent j k e x n [] (here, le) = absurd (ground arith)
snoc-Recent j k e x n ((i, y) ∷ items) (here, le) =
    let sum = length-append items ((j, x) ∷ []) in
    elim (Bool-cases (i == k)) [
      | inl h ↦ let value = rw h at here in let place = rw h at le in rw h (value, omega arith)
      | inr h ↦
          let value = rw h at here in
          let place = rw h at le in rw h (snoc-Recent j k e x n items (value, place))
    ]

trim-Recent :
    (capacity k : ℕ) (e : Entry) (n : ℕ) (items : List (ℕ × Entry))
    → suc n < capacity
    → Recent k e n items
    → Recent k e n (trim capacity items).0
unfolding trim lookup
trim-Recent capacity k e n [] room r = r
trim-Recent capacity k e n ((i, y) ∷ items) room (here, le) =
    elim (Bool-cases (leb capacity (suc (length items)))) [
      | inr h ↦ rw h (here, le)
      | inl h ↦ elim (Bool-cases (i == k)) [
        | inl hit ↦ let place = rw hit at le in absurd (ground arith)
        | inr miss ↦ rw h (trim-Recent capacity k e n items room (rw miss at here, rw miss at le))
      ]
    ]

put-Recent :
    (t : Tier) (x : Entry) (k : ℕ) (e : Entry) (n : ℕ)
    → x.key ≢ k
    → suc n < t.capacity
    → Recent k e n t.items
    → Recent k e (suc n) (put t x).items × ((put t x).capacity ≡ t.capacity)
unfolding put_new to_end put lookup
put-Recent t x k e n ne room r = elim (Option-cases (lookup x.key t.items)) [
  | inl new ↦
      rw (positive, new, put)
        (
          snoc-Recent x.key k e x n (trim t.capacity t.items).0
              (trim-Recent t.capacity k e n t.items room r),
          refl,
        )
  | inr (old, there) ↦
      rw (positive, there, put)
        (
          snoc-Recent x.key k e x n (erase x.key t.items) (erase-Recent x.key k e n t.items ne r),
          refl,
        )
]
  where
    positive : leb t.capacity 0 ≡ false
    positive = ground arith

-- Entries put one after the other.
pub puts : Tier → List Entry → Tier
puts t [] = t
puts t (x ∷ xs) = puts (put t x) xs

puts-Recent :
    (t : Tier) (xs : List Entry) (k : ℕ) (e : Entry) (n : ℕ)
    → All (λ x. x.key ≢ k) xs
    → n + length xs < t.capacity
    → Recent k e n t.items
    → lookup k (puts t xs).items ≡ some e
unfolding puts
puts-Recent t [] k e n ne room r = r.0
puts-Recent t (x ∷ xs) k e n (first, rest) room r =
    let one = put-Recent t x k e n first (omega arith) r in
    let sum = add-suc n (length xs) in
    puts-Recent (put t x) xs k e (suc n) rest (rw (one.1) (omega arith)) one.0

last-Recent :
    (k : ℕ) (e : Entry) (others : List (ℕ × Entry))
    → lookup k others ≡ none
    → Recent k e 0 (others ++ (k, e) ∷ [])
unfolding lookup
last-Recent k e [] gone = ground arith
last-Recent k e ((i, y) ∷ others) gone = elim (Bool-cases (i == k)) [
  | inl h ↦ absurd (ground arith)
  | inr h ↦ rw h (last-Recent k e others (rw h at gone))
]

to_end-Recent : (k : ℕ) (e : Entry) (items : List (ℕ × Entry)) → Recent k e 0 (to_end k e items)
unfolding to_end
to_end-Recent k e items = last-Recent k e (erase k items) (lookup-erase k k items ∙ rw (==_refl k))

get-hit :
    (t : Tier) (k now_ms : ℕ) (e : Entry)
    → (get t k now_ms).1 ≡ some e
    → ((get t k now_ms).0.capacity ≡ t.capacity) × Recent k e 0 (get t k now_ms).0.items
unfolding get
get-hit t k now_ms e hit = elim (Option-cases (lookup k t.items)) [
  | inl miss ↦ absurd (ground arith)
  | inr (f, there) ↦ elim (Bool-cases (leb f.expires_ms now_ms)) [
    | inl old ↦ absurd (ground arith)
    | inr fresh ↦
        let same : f ≡ e = ground arith in
        rw (there, get, fresh)
          (refl, subst (λ x. Recent k x 0 (to_end k f t.items)) same (to_end-Recent k f t.items))
  ]
]

found-fresh :
    (t : Tier) (k now_ms : ℕ) (e : Entry)
    → lookup k t.items ≡ some e
    → now_ms < e.expires_ms
    → (get t k now_ms).1 ≡ some e
unfolding get
found-fresh t k now_ms e there fresh = rw (there, get, late) refl
  where
    late : leb e.expires_ms now_ms ≡ false
    late = ground arith

-- An entry that was just read is the last to go: fewer other entries than the capacity, put one
-- after the other, do not evict it, and a later read before it expires finds it again.
pub read-survives :
    (t : Tier) (k now_ms : ℕ) (e : Entry) (xs : List Entry) (later_ms : ℕ)
    → (get t k now_ms).1 ≡ some e
    → All (λ x. x.key ≢ k) xs
    → length xs < t.capacity
    → later_ms < e.expires_ms
    → (get (puts (get t k now_ms).0 xs) k later_ms).1 ≡ some e
read-survives t k now_ms e xs later_ms hit ne room fresh =
    let after = get-hit t k now_ms e hit in
    found-fresh (puts (get t k now_ms).0 xs) k later_ms e
      (puts-Recent (get t k now_ms).0 xs k e 0 ne (rw (after.0) (omega arith)) after.1) fresh
