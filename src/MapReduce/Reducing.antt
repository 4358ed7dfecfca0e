-- ===== src/MapReduce/Reducing.antt =====
-- The reduce phase, from the buckets to the dictionary of the results.
use agent_learn.Base.{
  ℕ, zero, suc, ◌+◌, ◌≤◌, ◌<◌, ◌≡◌, refl, ap, ◌∙◌, ◌≢◌, inl, inr, Option, none, some, List, [], ◌∷◌,
  arith, lookup, insert, lookup-insert, ◌==◌, ==_iff, contains, Bool-cases, if◌then◌else◌,
}
use agent_learn.MapReduce.{group, group_at, keys, reduce_keys, reduce_bucket, reduce_buckets}
use agent_learn.MapReduce.Shuffle.{
  values_of, present, group-values_of, is_some, contains-keys, buckets_of, group_at-present,
}

-- The result of a key, from its values.
abbrev pub reduced {ℓ} : {V R : Type ℓ} → (ℕ → List V → R) → ℕ → List V → Option R
reduced reducer key [] = none
reduced reducer key (v ∷ vs) = some (reducer key (v ∷ vs))

module _ {ℓ} {V R : Type ℓ} (by_text : List ℕ → List ℕ) (reducer : ℕ → List V → R)
    (keeps : (key : ℕ) (ks : List ℕ) → contains key (by_text ks) ≡ contains key ks) where
  -- The result of a key that was already there stays unless there are values.
  abbrev pub updated : ℕ → List V → Option R → Option R
  updated key [] old = old
  updated key (v ∷ vs) old = some (reducer key (v ∷ vs))

  pub updated-none : (key : ℕ) (vs : List V) → updated key vs none ≡ reduced reducer key vs
  updated-none key [] = refl
  updated-none key (v ∷ vs) = refl

  lookup-reduce_keys :
      (key : ℕ) (ks : List ℕ) (grouped : List (ℕ × List V)) (results : List (ℕ × R))
      → lookup key (reduce_keys by_text reducer ks grouped results) ≡ (
          if contains key ks then some (reducer key (group_at key grouped)) else lookup key results)
  unfolding reduce_keys
  lookup-reduce_keys key [] grouped results = refl
  lookup-reduce_keys key (k ∷ ks) grouped results =
      let written = reducer k (group_at k grouped) in
      let rest = lookup-reduce_keys key ks grouped (insert k written results) in
      let read = lookup-insert k key written results in
      elim (Bool-cases (contains key ks)) [
        | inl later ↦ elim (Bool-cases (k == key)) [
          | inl e ↦ rest ∙ rw (later, e) refl
          | inr e ↦ rest ∙ rw (later, e) refl
        ]
        | inr last ↦ elim (Bool-cases (k == key)) [
          | inl e ↦
              rest
              ∙ rw (last, e)
                  (read
                    ∙ rw e (ap (λ j. some (reducer j (group_at j grouped))) ((==_iff k key).0 e)))
          | inr e ↦ rest ∙ rw (last, e) (read ∙ rw e refl)
        ]
      ]

  lookup-reduce_bucket :
      (key : ℕ) (pairs : List (ℕ × V)) (results : List (ℕ × R))
      → lookup key (reduce_bucket by_text reducer pairs results)
        ≡ updated key (values_of key pairs) (lookup key results)
  unfolding reduce_bucket
  lookup-reduce_bucket key pairs results =
      let grouped = group pairs [] in
      let all = lookup-reduce_keys key (by_text (keys grouped)) grouped results in
      let mentioned =
        keeps key (keys grouped)
        ∙ contains-keys key grouped
        ∙ ap is_some (group-values_of pairs key) in
      let given = group_at-present key (values_of key pairs) grouped (group-values_of pairs key) in
      all
      ∙ ap (λ b. if b then some (reducer key (group_at key grouped)) else lookup key results)
          mentioned
      ∙ ap
          (λ vs.
            if is_some (present (values_of key pairs))
            then some (reducer key vs)
            else lookup key results)
          given
      ∙ either_way key (values_of key pairs) (lookup key results)
    where
      either_way :
          (key : ℕ) (vs : List V) (old : Option R)
          → (if is_some (present vs) then some (reducer key vs) else old) ≡ updated key vs old
      either_way key [] old = refl
      either_way key (v ∷ vs) old = refl

  module _ (key p : ℕ) (f : ℕ → List (ℕ × V))
      (elsewhere : (m : ℕ) → m ≢ p → values_of key (f m) ≡ []) where
    beyond :
        (i n : ℕ) (results : List (ℕ × R))
        → p < i
        → lookup key (reduce_buckets by_text reducer (buckets_of i n f) results)
          ≡ lookup key results
    unfolding reduce_buckets buckets_of
    beyond i zero results away = refl
    beyond i (suc n) results away =
        beyond (i + 1) n (reduce_bucket by_text reducer (f i) results) (omega arith)
        ∙ lookup-reduce_bucket key (f i) results
        ∙ ap (λ vs. updated key vs (lookup key results)) (elsewhere i (omega arith))

    pub among :
        (i n : ℕ) (results : List (ℕ × R))
        → i ≤ p
        → p < i + n
        → lookup key (reduce_buckets by_text reducer (buckets_of i n f) results)
          ≡ updated key (values_of key (f p)) (lookup key results)
    unfolding reduce_buckets buckets_of
    among i zero results low high = absurd (omega arith)
    among i (suc n) results low high =
        let next = reduce_bucket by_text reducer (f i) results in
        let here = lookup-reduce_bucket key (f i) results in
        elim (Bool-cases (i == p)) [
          | inl e ↦
              let same : i ≡ p = (==_iff i p).0 e in
              beyond (i + 1) n next (omega arith)
              ∙ here
              ∙ ap (λ j. updated key (values_of key (f j)) (lookup key results)) same
          | inr e ↦
              let other : i ≢ p = ground (arith, e) in
              among (i + 1) n next (ground (arith, e, low)) (omega arith)
              ∙ ap (updated key (values_of key (f p)))
                  (here ∙ ap (λ vs. updated key vs (lookup key results)) (elsewhere i other))
        ]
