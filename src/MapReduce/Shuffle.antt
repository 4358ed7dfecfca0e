-- ===== src/MapReduce/Shuffle.antt =====
-- Where the pairs of a key go, and what a reducer is given of them.
use agent_learn.Base.{
  ℕ, zero, suc, ◌+◌, ◌≤◌, ◌≡◌, refl, sym, ap, subst, ◌∙◌, inl, inr, Bool, true, false, Option, none,
  some, List, [], ◌∷◌, ◌++◌, arith, lookup, insert, lookup-insert, ◌==◌, ==_iff, contains,
  Bool-cases, if◌then◌else◌,
}
use mathlib.Core.List.{append_assoc, append-nil}
use agent_learn.MapReduce.{append_at, empty_buckets, group, group_at, keys}

abbrev pub is_some {ℓ} : {B : Type ℓ} → Option B → Bool
is_some none = false
is_some (some b) = true

module _ {ℓ} {V : Type ℓ} where
  -- The values of a key, in the order of the pairs.
  unfoldable pub values_of : ℕ → List (ℕ × V) → List V
  values_of key [] = []
  values_of key ((k, v) ∷ pairs) =
      let rest = values_of key pairs in if k == key then v ∷ rest else rest

  pub values_of-append :
      (key : ℕ) (xs ys : List (ℕ × V))
      → values_of key (xs ++ ys) ≡ values_of key xs ++ values_of key ys
  unfolding values_of
  values_of-append key [] ys = refl
  values_of-append key ((k, v) ∷ xs) ys = elim (Bool-cases (k == key)) [
    | inl e ↦ rw e (ap (λ l. v ∷ l) (values_of-append key xs ys))
    | inr e ↦ rw e (values_of-append key xs ys)
  ]

  -- A group as a dictionary has it: no entry for no values.
  abbrev pub present : List V → Option (List V)
  present [] = none
  present (v ∷ vs) = some (v ∷ vs)

  present-append : (xs : List V) (v : V) → present (xs ++ v ∷ []) ≡ some (xs ++ v ∷ [])
  present-append [] v = refl
  present-append (x ∷ xs) v = refl

  pub group_at-present :
      (key : ℕ) (xs : List V) (grouped : List (ℕ × List V))
      → lookup key grouped ≡ present xs
      → group_at key grouped ≡ xs
  group_at-present key [] grouped h = rw (h, group_at) refl
  group_at-present key (x ∷ xs) grouped h = rw (h, group_at) refl

  group-append :
      (pairs : List (ℕ × V)) (grouped : List (ℕ × List V)) (key : ℕ) (before : List V)
      → lookup key grouped ≡ present before
      → lookup key (group pairs grouped) ≡ present (before ++ values_of key pairs)
  unfolding group values_of
  group-append [] grouped key before h = h ∙ ap present (sym (append-nil before))
  group-append ((k, v) ∷ pairs) grouped key before h =
      let written = group_at k grouped ++ v ∷ [] in
      let read = lookup-insert k key written grouped in
      elim (Bool-cases (k == key)) [
        | inr e ↦ rw e (group-append pairs (insert k written grouped) key before (read ∙ rw e h))
        | inl e ↦
            let same : k ≡ key = (==_iff k key).0 e in
            let held : group_at k grouped ≡ before =
              subst (λ j. group_at j grouped ≡ before) (sym same)
                (group_at-present key before grouped h) in
            let now : lookup key (insert k written grouped) ≡ present (before ++ v ∷ []) =
              read ∙ rw (e, held) (sym (present-append before v)) in
            rw e (
              group-append pairs (insert k written grouped) key (before ++ v ∷ []) now
              ∙ ap present (append_assoc before (v ∷ []) (values_of key pairs)))
      ]

  -- The reducer is given all values of a key, in the order of the pairs, and no key without a value.
  pub group-values_of :
      (pairs : List (ℕ × V)) (key : ℕ) → lookup key (group pairs []) ≡ present (values_of key pairs)
  unfolding lookup
  group-values_of pairs key = group-append pairs [] key [] refl

  pub contains-keys :
      (key : ℕ) (grouped : List (ℕ × List V))
      → contains key (keys grouped) ≡ is_some (lookup key grouped)
  unfolding keys lookup
  contains-keys key [] = refl
  contains-keys key ((k, vs) ∷ grouped) = elim (Bool-cases (k == key)) [
    | inl e ↦ rw e refl
    | inr e ↦ rw e (contains-keys key grouped)
  ]

  -- The list of `f i`, `f (i + 1)` and so on.
  unfoldable pub buckets_of : ℕ → ℕ → (ℕ → List (ℕ × V)) → List (List (ℕ × V))
  buckets_of i zero f = []
  buckets_of i (suc n) f = f i ∷ buckets_of (i + 1) n f

  pub empty_buckets-of : (i n : ℕ) → empty_buckets n ≡ buckets_of i n λ m. []
  unfolding empty_buckets buckets_of
  empty_buckets-of i zero = refl
  empty_buckets-of i (suc n) = ap (λ bs. [] ∷ bs) (empty_buckets-of (i + 1) n)

  pub buckets_of-same :
      (i n : ℕ) (f g : ℕ → List (ℕ × V))
      → ((m : ℕ) → i ≤ m → f m ≡ g m)
      → buckets_of i n f ≡ buckets_of i n g
  unfolding buckets_of
  buckets_of-same i zero f g h = refl
  buckets_of-same i (suc n) f g h =
      rw (h i (omega arith), buckets_of-same (i + 1) n f g λ m le. h m (omega arith)) refl

  -- `f` with one more pair at `target`.
  abbrev pub extended : ℕ → ℕ × V → (ℕ → List (ℕ × V)) → ℕ → List (ℕ × V)
  extended target pair f m = if m == target then f m ++ pair ∷ [] else f m

  pub append_at-buckets_of :
      (j i n : ℕ) (pair : ℕ × V) (f : ℕ → List (ℕ × V))
      → append_at j pair (buckets_of i n f) ≡ buckets_of i n (extended (i + j) pair f)
  unfolding append_at buckets_of
  append_at-buckets_of j i zero pair f = refl
  append_at-buckets_of zero i (suc n) pair f =
      let here : (i == i + 0) ≡ true = ground arith in
      let rest =
        buckets_of-same (i + 1) n f (extended (i + 0) pair f)
          λ m le. let away : (m == i + 0) ≡ false = ground arith in rw away refl in
      ap (λ bs. (f i ++ pair ∷ []) ∷ bs) rest
      ∙ ap
          (λ b.
            (if b then f i ++ pair ∷ [] else f i) ∷ buckets_of (i + 1) n (extended (i + 0) pair f))
          (sym here)
  append_at-buckets_of (suc j) i (suc n) pair f =
      let away : (i == i + suc j) ≡ false = ground arith in
      let same : i + 1 + j ≡ i + suc j = omega arith in
      ap (λ bs. f i ∷ bs) (append_at-buckets_of j (i + 1) n pair f)
      ∙ ap (λ k. f i ∷ buckets_of (i + 1) n (extended k pair f)) same
      ∙ ap
          (λ b.
            (if b then f i ++ pair ∷ [] else f i)
            ∷ buckets_of (i + 1) n (extended (i + suc j) pair f))
          (sym away)
