-- ===== src/Workflow/Exhaust.antt =====
-- What the loop over the layers of a workflow leaves.
use agent_learn.Base.{
  ℕ, zero, suc, ◌≡◌, ◌≤◌, ◌<◌, refl, sym, ap, subst, ◌∙◌, true, inl, inr, List, [], ◌∷◌, arith,
  ◌==◌, ==_refl, leb, length, erase, length-erase-le, contains, Bool-cases, ◌||◌, ◌⊎◌, ◌++◌, false,
  some, not, lookup, lookup-erase, filter, All, All-map,
}
use mathlib.Core.Option.{some-injective}
use agent_learn.Workflow.{place, sorted, free, pop_all, resolve, groups_from}

-- A step without a dependency is there to be taken out.
erase-free :
    (k : ℕ) (remaining : List (ℕ × List ℕ))
    → contains k (free remaining) ≡ true
    → length (erase k remaining) < length remaining
unfolding erase free
erase-free k [] h = absurd (ground (arith, h))
erase-free k ((j, []) ∷ remaining) h = elim (Bool-cases (j == k)) [
  | inl e ↦ let bound = length-erase-le k remaining in rw e (omega arith)
  | inr e ↦ let rest = erase-free k remaining (rw e at h) in rw e (omega arith)
]
erase-free k ((j, dep ∷ deps) ∷ remaining) h =
    let rest = erase-free k remaining h in
    elim (Bool-cases (j == k)) [ inl e ↦ rw e (omega arith) | inr e ↦ rw e (omega arith) ]

length-pop_all :
    (ids : List ℕ) (remaining : List (ℕ × List ℕ))
    → length (pop_all ids remaining) ≤ length remaining
unfolding pop_all
length-pop_all [] remaining = omega arith
length-pop_all (id ∷ ids) remaining =
    let rest = length-pop_all ids (erase id remaining) in
    let one = length-erase-le id remaining in omega arith

length-resolve :
    (ready : List ℕ) (remaining : List (ℕ × List ℕ))
    → length (resolve ready remaining) ≡ length remaining
unfolding resolve
length-resolve ready [] = refl
length-resolve ready ((id, deps) ∷ remaining) = ap suc (length-resolve ready remaining)

place-nonempty : (x : ℕ) (ys : List ℕ) → (id : ℕ) × (ids : List ℕ) × (place x ys ≡ id ∷ ids)
unfolding place
place-nonempty x [] = (x, [], refl)
place-nonempty x (y ∷ ys) = elim (Bool-cases (leb x y)) [
  | inl e ↦ (x, y ∷ ys, rw e refl)
  | inr e ↦ (y, place x ys, rw e refl)
]

pub contains-append :
    (k : ℕ) (xs ys : List ℕ) → contains k (xs ++ ys) ≡ (contains k xs || contains k ys)
contains-append k [] ys = refl
contains-append k (x ∷ xs) ys = let rest = contains-append k xs ys in ground (arith, rest)

place-contains : (k x : ℕ) (ys : List ℕ) → contains k (place x ys) ≡ ((x == k) || contains k ys)
unfolding place
place-contains k x [] = refl
place-contains k x (y ∷ ys) =
    let rest = place-contains k x ys in
    elim (Bool-cases (leb x y)) [ inl e ↦ rw e refl | inr e ↦ rw e (ground (arith, rest)) ]

pub sorted-contains : (k : ℕ) (xs : List ℕ) → contains k (sorted xs) ≡ contains k xs
unfolding sorted
sorted-contains k [] = refl
sorted-contains k (x ∷ xs) =
    place-contains k x (sorted xs) ∙ ap (λ b. (x == k) || b) (sorted-contains k xs)

-- A round takes out at least one step.
round-shrinks :
    (remaining : List (ℕ × List ℕ)) (x : ℕ) (xs : List ℕ)
    → free remaining ≡ x ∷ xs
    → length (resolve (sorted (free remaining)) (pop_all (sorted (free remaining)) remaining))
      < length remaining
unfolding sorted pop_all
round-shrinks remaining x xs e =
    let first = place-nonempty x (sorted xs) in
    let shape : sorted (free remaining) ≡ first.0 ∷ first.1 = rw e first.2 in
    let found : contains first.0 (free remaining) ≡ true =
      sym (sorted-contains first.0 (free remaining)) ∙ rw (shape, ==_refl first.0) refl in
    let one = erase-free first.0 remaining found in
    let others = length-pop_all first.1 (erase first.0 remaining) in
    let size = length-resolve (first.0 ∷ first.1) (pop_all (first.0 ∷ first.1) remaining) in
    subst (λ ids. length (resolve ids (pop_all ids remaining)) < length remaining) (sym shape)
      (omega arith)

-- What is known of a step while the layers are taken: it is placed, or it remains with dependencies
-- of its own that are not placed.
abbrev pub Tracked : List ℕ → List (ℕ × List ℕ) → ℕ × List ℕ → Type 0
Tracked placed remaining entry =
    (contains entry.0 placed ≡ true)
    ⊎ ((deps : List ℕ) × (lookup entry.0 remaining ≡ some deps)
        × All (λ dep. (contains dep entry.1 ≡ true) × (contains dep placed ≡ false)) deps)

-- A step that is not placed waits for a dependency that is not placed either.
abbrev pub Blocked : List ℕ → ℕ × List ℕ → Type 0
Blocked placed entry =
    (contains entry.0 placed ≡ true)
    ⊎ ((dep : ℕ) × (contains dep entry.1 ≡ true) × (contains dep placed ≡ false))

lookup-pop_all :
    (k : ℕ) (ids : List ℕ) (remaining : List (ℕ × List ℕ))
    → contains k ids ≡ false
    → lookup k (pop_all ids remaining) ≡ lookup k remaining
unfolding pop_all
lookup-pop_all k [] remaining h = refl
lookup-pop_all k (id ∷ ids) remaining h =
    let other : (id == k) ≡ false = ground (arith, h) in
    lookup-pop_all k ids (erase id remaining) (ground (arith, h))
    ∙ lookup-erase id k remaining
    ∙ rw other refl

lookup-resolve :
    (k : ℕ) (ready deps : List ℕ) (remaining : List (ℕ × List ℕ))
    → lookup k remaining ≡ some deps
    → lookup k (resolve ready remaining) ≡ some (filter (λ dep. not (contains dep ready)) deps)
unfolding resolve lookup
lookup-resolve k ready deps [] h = absurd (ground arith)
lookup-resolve k ready deps ((id, old) ∷ remaining) h = elim (Bool-cases (id == k)) [
  | inl e ↦
      let same = some-injective old deps (rw e at h) in
      rw e (ap (λ l. some (filter (λ dep. not (contains dep ready)) l)) same)
  | inr e ↦ rw e (lookup-resolve k ready deps remaining (rw e at h))
]

-- The dependencies that a round leaves are not placed by it.
filter-unplaced :
    (needs ready placed deps : List ℕ)
    → All (λ dep. (contains dep needs ≡ true) × (contains dep placed ≡ false)) deps
    → All
        (λ dep. (contains dep needs ≡ true) × (contains dep (placed ++ ready) ≡ false))
        (filter (λ dep. not (contains dep ready)) deps)
filter-unplaced needs ready placed [] all = tt
filter-unplaced needs ready placed (dep ∷ deps) all =
    let rest = filter-unplaced needs ready placed deps all.1 in
    elim (Bool-cases (contains dep ready)) [
      | inl e ↦ rw e rest
      | inr e ↦
          rw e ((all.0.0, contains-append dep placed ready ∙ ground (arith, all.0.1, e)), rest)
    ]

Tracked-round :
    (placed ready : List ℕ) (remaining : List (ℕ × List ℕ)) (entry : ℕ × List ℕ)
    → Tracked placed remaining entry
    → Tracked (placed ++ ready) (resolve ready (pop_all ready remaining)) entry
Tracked-round placed ready remaining entry (inl e) =
    inl (contains-append entry.0 placed ready ∙ ground (arith, e))
Tracked-round placed ready remaining entry (inr (deps, found, open_ones)) =
    elim (Bool-cases (contains entry.0 ready)) [
      | inl e ↦ inl (contains-append entry.0 placed ready ∙ ground (arith, e))
      | inr e ↦ inr (
        filter (λ dep. not (contains dep ready)) deps,
        lookup-resolve entry.0 ready deps (pop_all ready remaining)
            (lookup-pop_all entry.0 ready remaining e ∙ found),
        filter-unplaced entry.1 ready placed deps open_ones,
      )
    ]

free-found :
    (k : ℕ) (remaining : List (ℕ × List ℕ))
    → lookup k remaining ≡ some []
    → contains k (free remaining) ≡ true
unfolding lookup free
free-found k [] h = absurd (ground arith)
free-found k ((id, []) ∷ remaining) h = elim (Bool-cases (id == k)) [
  | inl e ↦ ground (arith, e)
  | inr e ↦ let rest = free-found k remaining (rw e at h) in ground (arith, rest)
]
free-found k ((id, dep ∷ deps) ∷ remaining) h = elim (Bool-cases (id == k)) [
  | inl e ↦ absurd (ground (arith, some-injective (dep ∷ deps) [] (rw e at h)))
  | inr e ↦ free-found k remaining (rw e at h)
]

Tracked-end :
    (placed : List ℕ) (remaining : List (ℕ × List ℕ))
    → free remaining ≡ []
    → (entry : ℕ × List ℕ) → Tracked placed remaining entry
    → Blocked placed entry
Tracked-end placed remaining e entry (inl h) = inl h
Tracked-end placed remaining e entry (inr ([], found, all)) =
    absurd (ground (arith, rw e at (free-found entry.0 remaining found)))
Tracked-end placed remaining e entry (inr (dep ∷ deps, found, all)) = inr (dep, all.0.0, all.0.1)

append_assoc : (xs ys zs : List ℕ) → (xs ++ ys) ++ zs ≡ xs ++ (ys ++ zs)
append_assoc [] ys zs = refl
append_assoc (x ∷ xs) ys zs = ap (λ l. x ∷ l) (append_assoc xs ys zs)

append-nil : (xs : List ℕ) → xs ++ [] ≡ xs
append-nil [] = refl
append-nil (x ∷ xs) = ap (λ l. x ∷ l) (append-nil xs)

abbrev pub concat : List (List ℕ) → List ℕ
concat [] = []
concat (layer ∷ layers) = layer ++ concat layers

-- With a round for each step, the loop ends when every step that remains is blocked.
pub groups_from-Blocked :
    (fuel : ℕ) (placed : List ℕ) (remaining graph : List (ℕ × List ℕ))
    → length remaining ≤ fuel
    → All (Tracked placed remaining) graph
    → All (Blocked (placed ++ concat (groups_from fuel remaining))) graph
unfolding groups_from free
groups_from-Blocked zero placed [] graph h all =
    subst (λ l. All (Blocked l) graph) (sym (append-nil placed))
      (All-map (Tracked-end placed [] refl) graph all)
groups_from-Blocked zero placed (entry ∷ remaining) graph h all = absurd (omega (arith, h))
groups_from-Blocked (suc fuel) placed remaining graph h all =
    let ready = sorted (free remaining) in
    some_free (groups_from fuel (resolve ready (pop_all ready remaining))) (free remaining) refl
      λ less.
        groups_from-Blocked fuel (placed ++ ready) (resolve ready (pop_all ready remaining)) graph
          less (All-map (Tracked-round placed ready remaining) graph all)
  where
    some_free :
        (rest : List (List ℕ)) (ids : List ℕ)
        → free remaining ≡ ids
        → (length (resolve (sorted (free remaining)) (pop_all (sorted (free remaining)) remaining))
              ≤ fuel
            → All (Blocked ((placed ++ sorted (free remaining)) ++ concat rest)) graph)
        → All
            (Blocked (
              placed ++ concat (elim ids [ [] ↦ [] | id ∷ more ↦ sorted (free remaining) ∷ rest ])))
            graph
    some_free rest [] e next =
        subst (λ l. All (Blocked l) graph) (sym (append-nil placed))
          (All-map (Tracked-end placed remaining e) graph all)
    some_free rest (id ∷ more) e next =
        subst (λ l. All (Blocked l) graph)
          (append_assoc placed (sorted (free remaining)) (concat rest))
          (next (let less = round-shrinks remaining id more e in omega (arith, less, h)))
