-- ===== src/Workflow/Layers.antt =====
-- The layers of the graph.
use agent_learn.Base.{
  ℕ, zero, suc, ◌≡◌, refl, sym, subst, ◌∙◌, ◌⊎◌, inl, inr, Bool, true, not, none, some, List, [],
  ◌∷◌, ◌++◌, arith, ◌==◌, ==_iff, ==_refl, leb, length, lookup, insert, erase, erase-All, Unique,
  insert-Unique, contains, All, All-map, filter, Bool-cases,
}
use agent_learn.Workflow.Exhaust.{Blocked, concat, contains-append, groups_from-Blocked}
use agent_learn.Workflow.{
  WorkflowStep, place, sorted, free, remaining_of, pop_all, resolve, groups_from, groups,
}

-- A list of all of which `P` holds, through the sort.
module _ (P : ℕ → Type 0) where
  place-All : (x : ℕ) (ys : List ℕ) → P x → All P ys → All P (place x ys)
  unfolding place
  place-All x [] p all = (p, tt)
  place-All x (y ∷ ys) p all = elim (Bool-cases (leb x y)) [
    | inl e ↦ rw e (p, all)
    | inr e ↦ rw e (all.0, place-All x ys p all.1)
  ]

  pub sorted-All : (xs : List ℕ) → All P xs → All P (sorted xs)
  unfolding sorted
  sorted-All [] all = tt
  sorted-All (x ∷ xs) all = place-All x (sorted xs) all.0 (sorted-All xs all.1)

-- What each step that remains depends on is still in its list, or was done.
abbrev Open : (ℕ → List ℕ) → List ℕ → List (ℕ × List ℕ) → Type 0
Open needs done remaining =
    All
      (λ entry.
        All (λ dep. (contains dep entry.1 ≡ true) ⊎ (contains dep done ≡ true)) (needs entry.0))
      remaining

-- Each identifier of a layer has all that it needs in the layers before it.
abbrev pub Layered : (ℕ → List ℕ) → List ℕ → List (List ℕ) → Type 0
Layered needs done [] = Unit
Layered needs done (layer ∷ layers) =
    All (λ id. All (λ dep. contains dep done ≡ true) (needs id)) layer
    × Layered needs (done ++ layer) layers

free-All :
    (needs : ℕ → List ℕ) (done : List ℕ) (remaining : List (ℕ × List ℕ))
    → Open needs done remaining
    → All (λ id. All (λ dep. contains dep done ≡ true) (needs id)) (free remaining)
unfolding free
free-All needs done [] all = tt
free-All needs done ((id, []) ∷ remaining) all = (
  All-map (λ dep h. elim h [ inl gone ↦ absurd (ground (arith, gone)) | inr before ↦ before ])
      (needs id) all.0,
  free-All needs done remaining all.1,
)
free-All needs done ((id, dep ∷ deps) ∷ remaining) all = free-All needs done remaining all.1

pop_all-Open :
    (needs : ℕ → List ℕ) (done ids : List ℕ) (remaining : List (ℕ × List ℕ))
    → Open needs done remaining
    → Open needs done (pop_all ids remaining)
unfolding pop_all
pop_all-Open needs done [] remaining all = all
pop_all-Open needs done (id ∷ ids) remaining all =
    pop_all-Open needs done ids (erase id remaining) (
      erase-All
        (λ entry.
          All (λ dep. (contains dep entry.1 ≡ true) ⊎ (contains dep done ≡ true)) (needs entry.0))
        id remaining all)

contains-filter :
    (k : ℕ) (p : ℕ → Bool) (xs : List ℕ) → p k ≡ true → contains k (filter p xs) ≡ contains k xs
contains-filter k p [] h = refl
contains-filter k p (x ∷ xs) h =
    let rest = contains-filter k p xs h in
    elim (Bool-cases (x == k)) [
      | inl e ↦
          let kept : p x ≡ true = subst (λ j. p j ≡ true) (sym ((==_iff x k).0 e)) h in
          rw (kept, e) refl
      | inr e ↦ elim (Bool-cases (p x)) [ inl q ↦ rw (q, e) rest | inr q ↦ rw (q, e) rest ]
    ]

-- A dependency that was still open is done now, or stays open.
resolve-dep :
    (done ready deps : List ℕ) (dep : ℕ)
    → (contains dep deps ≡ true) ⊎ (contains dep done ≡ true)
    → (contains dep (filter (λ d. not (contains d ready)) deps) ≡ true)
      ⊎ (contains dep (done ++ ready) ≡ true)
resolve-dep done ready deps dep (inr h) = inr (contains-append dep done ready ∙ rw h refl)
resolve-dep done ready deps dep (inl h) = elim (Bool-cases (contains dep ready)) [
  | inl e ↦ inr (contains-append dep done ready ∙ ground (arith, e))
  | inr e ↦ inl (contains-filter dep (λ d. not (contains d ready)) deps (rw e refl) ∙ h)
]

resolve-Open :
    (needs : ℕ → List ℕ) (done ready : List ℕ) (remaining : List (ℕ × List ℕ))
    → Open needs done remaining
    → Open needs (done ++ ready) (resolve ready remaining)
unfolding resolve
resolve-Open needs done ready [] all = tt
resolve-Open needs done ready ((id, deps) ∷ remaining) all = (
  All-map (resolve-dep done ready deps) (needs id) all.0,
  resolve-Open needs done ready remaining all.1,
)

groups_from-Layered :
    (needs : ℕ → List ℕ) (fuel : ℕ) (done : List ℕ) (remaining : List (ℕ × List ℕ))
    → Open needs done remaining
    → Layered needs done (groups_from fuel remaining)
unfolding groups_from
groups_from-Layered needs zero done remaining all = tt
groups_from-Layered needs (suc fuel) done remaining all =
    let ready = sorted (free remaining) in
    let next =
      groups_from-Layered needs fuel (done ++ ready) (resolve ready (pop_all ready remaining)) (
        resolve-Open needs done ready (pop_all ready remaining)
          (pop_all-Open needs done ready remaining all)) in
    let here =
      sorted-All (λ id. All (λ dep. contains dep done ≡ true) (needs id)) (free remaining)
        (free-All needs done remaining all) in
    nonempty (free remaining) here next
  where
    nonempty :
        (ids : List ℕ)
        → All (λ id. All (λ dep. contains dep done ≡ true) (needs id)) (sorted (free remaining))
        → Layered needs (done ++ sorted (free remaining)) (
            groups_from fuel
              (resolve (sorted (free remaining)) (pop_all (sorted (free remaining)) remaining)))
        → Layered needs done (elim ids [
          | [] ↦ []
          | id ∷ more ↦
              sorted (free remaining)
              ∷ groups_from fuel
                  (resolve (sorted (free remaining)) (pop_all (sorted (free remaining)) remaining))
        ])
    nonempty [] here next = tt
    nonempty (id ∷ more) here next = (here, next)

-- The dependencies of a step of the graph.
abbrev pub needs_of : List WorkflowStep → ℕ → List ℕ
needs_of steps id = elim (lookup id (remaining_of steps [])) [ none ↦ [] | some deps ↦ deps ]

remaining_of-Unique :
    (steps : List WorkflowStep) (remaining : List (ℕ × List ℕ))
    → Unique remaining
    → Unique (remaining_of steps remaining)
unfolding remaining_of
remaining_of-Unique [] remaining u = u
remaining_of-Unique (step ∷ steps) remaining u =
    remaining_of-Unique steps (insert step.id step.depends_on remaining)
      (insert-Unique step.id step.depends_on remaining u)

Unique-lookup :
    (dict : List (ℕ × List ℕ)) → Unique dict → All (λ e. lookup e.0 dict ≡ some e.1) dict
unfolding lookup
Unique-lookup [] u = tt
Unique-lookup ((k, v) ∷ dict) u = (
  rw (==_refl k) refl,
  All-map
      (λ e h. elim (Bool-cases (k == e.0)) [
        | inl same ↦
            let gone : lookup e.0 dict ≡ none =
              subst (λ j. lookup j dict ≡ none) ((==_iff k e.0).0 same) u.0 in
            absurd (ground (arith, gone, h))
        | inr other ↦ rw other h
      ])
      dict (Unique-lookup dict u.1),
)

All-self : (ks : List ℕ) → All (λ k. contains k ks ≡ true) ks
All-self [] = tt
All-self (k ∷ ks) = (rw (==_refl k) refl, All-map (λ j h. ground (arith, h)) ks (All-self ks))

-- For any list of steps, with whatever dependencies: the layers that `_groups` returns are such that
-- every identifier in a layer has all its dependencies in the layers before it; and each step of the
-- graph is in a layer, or has a dependency that is in none, as on a cycle or behind one.
pub groups-Layered :
    (steps : List WorkflowStep)
    → Layered (needs_of steps) [] (groups steps)
      × All (Blocked (concat (groups steps))) (remaining_of steps [])
unfolding groups
groups-Layered steps =
    let remaining = remaining_of steps [] in
    let found = Unique-lookup remaining (remaining_of-Unique steps [] tt) in
    (
      groups_from-Layered (needs_of steps) (length remaining) [] remaining (
          All-map
            (λ e h.
              let known : lookup e.0 remaining ≡ some e.1 = h in
              let all : needs_of steps e.0 ≡ e.1 = rw (known, needs_of) refl in
              subst (λ l. All (λ dep. (contains dep e.1 ≡ true) ⊎ (contains dep [] ≡ true)) l)
                (sym all) (All-map (λ dep inside. inl inside) e.1 (All-self e.1)))
            remaining found),
      groups_from-Blocked (length remaining) [] remaining remaining (omega arith) (
          All-map (λ e h. inr (e.1, h, All-map (λ dep inside. (inside, refl)) e.1 (All-self e.1)))
            remaining found),
    )
