-- ===== src/MapReduce/Mapping.antt =====
-- The map phase: each bucket holds the pairs whose keys have its number, in the order of the lines.
use agent_learn.Base.{
  ℕ, ◌+◌, ◌≡◌, refl, sym, ap, ◌∙◌, inl, inr, List, [], ◌∷◌, ◌++◌, arith, length, length-snoc, ◌==◌,
  ==_iff, Bool-cases, if◌then◌else◌,
}
use mathlib.Core.List.{append_assoc, append-nil}
use agent_learn.MapReduce.{partition, empty_buckets, append_at, map_pairs, map_split, map_splits}
use agent_learn.MapReduce.Split.{concat}
use agent_learn.MapReduce.Shuffle.{
  values_of, buckets_of, extended, append_at-buckets_of, buckets_of-same, empty_buckets-of,
}

-- All pairs that the mapper emits, in the order of the lines.
unfoldable pub emitted {ℓ} : {A V : Type ℓ} → (A → List (ℕ × V)) → List A → List (ℕ × V)
emitted mapper [] = []
emitted mapper (line ∷ lines) = mapper line ++ emitted mapper lines

emitted-append {ℓ} :
    {A V : Type ℓ} (mapper : A → List (ℕ × V)) (xs ys : List A)
    → emitted mapper (xs ++ ys) ≡ emitted mapper xs ++ emitted mapper ys
unfolding emitted
emitted-append mapper [] ys = refl
emitted-append mapper (x ∷ xs) ys =
    ap (λ l. mapper x ++ l) (emitted-append mapper xs ys)
    ∙ sym (append_assoc (mapper x) (emitted mapper xs) (emitted mapper ys))

module _ {ℓ} {A V : Type ℓ} (hash : ℕ → ℕ) (reducers : ℕ) (mapper : A → List (ℕ × V)) where
  -- The pairs of bucket `m`.
  pub share : List (ℕ × V) → ℕ → List (ℕ × V)
  share [] m = []
  share ((k, v) ∷ pairs) m =
      let rest = share pairs m in if m == partition hash k reducers then (k, v) ∷ rest else rest

  share-append : (xs ys : List (ℕ × V)) (m : ℕ) → share (xs ++ ys) m ≡ share xs m ++ share ys m
  unfolding share
  share-append [] ys m = refl
  share-append ((k, v) ∷ xs) ys m = elim (Bool-cases (m == partition hash k reducers)) [
    | inl e ↦ rw e (ap (λ l. (k, v) ∷ l) (share-append xs ys m))
    | inr e ↦ rw e (share-append xs ys m)
  ]

  share-snoc :
      (k : ℕ) (v : V) (before : List (ℕ × V)) (m : ℕ)
      → extended (partition hash k reducers) (k, v) (share before) m
        ≡ share (before ++ (k, v) ∷ []) m
  unfolding share
  share-snoc k v before m =
      let whole = share-append before ((k, v) ∷ []) m in
      elim (Bool-cases (m == partition hash k reducers)) [
        | inl e ↦ rw (whole, e) refl
        | inr e ↦ rw (whole, e) (sym (append-nil (share before m)))
      ]

  pub values_of-share :
      (key : ℕ) (pairs : List (ℕ × V)) (m : ℕ)
      → values_of key (share pairs m)
        ≡ (if m == partition hash key reducers then values_of key pairs else [])
  unfolding values_of share
  values_of-share key [] m = elim (Bool-cases (m == partition hash key reducers)) [
    | inl e ↦ rw e refl
    | inr e ↦ rw e refl
  ]
  values_of-share key ((k, v) ∷ pairs) m =
      let rest = values_of-share key pairs m in
      elim (Bool-cases (k == key)) [
        | inl same ↦
            let one : partition hash k reducers ≡ partition hash key reducers =
              ap (λ j. partition hash j reducers) ((==_iff k key).0 same) in
            elim (Bool-cases (m == partition hash key reducers)) [
              | inl e ↦ rw (one, same, e) (rw (same) (ap (λ l. v ∷ l) (rest ∙ rw e refl)))
              | inr e ↦ rw (one, same, e) (rest ∙ rw e refl)
            ]
        | inr other ↦ elim (Bool-cases (m == partition hash k reducers)) [
          | inl e ↦ rw (e, other) rest
          | inr e ↦ rw (e, other) rest
        ]
      ]

  abbrev pub mapped_to : List (ℕ × V) → List (List (ℕ × V)) × ℕ
  mapped_to pairs = (buckets_of 0 reducers (share pairs), length pairs)

  pub empty-mapped_to : (empty_buckets reducers, 0) ≡ mapped_to []
  unfolding share
  empty-mapped_to = ap (λ b. (b, 0)) (empty_buckets-of 0 reducers)

  map_pairs-mapped_to :
      (pairs before : List (ℕ × V))
      → map_pairs hash reducers mapper pairs (mapped_to before) ≡ mapped_to (before ++ pairs)
  unfolding map_pairs share
  map_pairs-mapped_to [] before = ap mapped_to (sym (append-nil before))
  map_pairs-mapped_to ((k, v) ∷ pairs) before =
      let p = partition hash k reducers in
      let old = share before in
      let from_zero : 0 + p ≡ p = omega arith in
      let placed : append_at p (k, v) (buckets_of 0 reducers old)
          ≡ buckets_of 0 reducers (share (before ++ (k, v) ∷ [])) =
        append_at-buckets_of p 0 reducers (k, v) old
        ∙ ap (λ target. buckets_of 0 reducers (extended target (k, v) old)) from_zero
        ∙ buckets_of-same 0 reducers (extended p (k, v) old) (share (before ++ (k, v) ∷ []))
            (λ m le. share-snoc k v before m) in
      let counted : length before + 1 ≡ length (before ++ (k, v) ∷ []) =
        sym (length-snoc before (k, v)) in
      ap (λ b. map_pairs hash reducers mapper pairs (b, length before + 1)) placed
      ∙ ap
          (λ n.
            map_pairs hash reducers mapper pairs
              (buckets_of 0 reducers (share (before ++ (k, v) ∷ [])), n))
          counted
      ∙ map_pairs-mapped_to pairs (before ++ (k, v) ∷ [])
      ∙ ap mapped_to (append_assoc before ((k, v) ∷ []) pairs)

  map_split-mapped_to :
      (split : List A) (before : List (ℕ × V))
      → map_split hash reducers mapper split (mapped_to before)
        ≡ mapped_to (before ++ emitted mapper split)
  unfolding map_split emitted
  map_split-mapped_to [] before = ap mapped_to (sym (append-nil before))
  map_split-mapped_to (line ∷ split) before =
      ap (map_split hash reducers mapper split) (map_pairs-mapped_to (mapper line) before)
      ∙ map_split-mapped_to split (before ++ mapper line)
      ∙ ap mapped_to (append_assoc before (mapper line) (emitted mapper split))

  pub map_splits-mapped_to :
      (splits : List (List A)) (before : List (ℕ × V))
      → map_splits hash reducers mapper splits (mapped_to before)
        ≡ mapped_to (before ++ emitted mapper (concat splits))
  unfolding map_splits emitted concat
  map_splits-mapped_to [] before = ap mapped_to (sym (append-nil before))
  map_splits-mapped_to (split ∷ splits) before =
      ap (map_splits hash reducers mapper splits) (map_split-mapped_to split before)
      ∙ map_splits-mapped_to splits (before ++ emitted mapper split)
      ∙ ap mapped_to (
          append_assoc before (emitted mapper split) (emitted mapper (concat splits))
          ∙ ap (λ l. before ++ l) (sym (emitted-append mapper split (concat splits))))
