-- ===== src/MapReduce/Reference.antt =====
-- A run against a program that has no splits, buckets or groups.
use agent_learn.Base.{
  ℕ, suc, ◌+◌, ◌%◌, ◌<◌, ◌≡◌, refl, ap, ◌∙◌, ◌≢◌, false, Option, none, some, List, [], arith,
  length, lookup, ◌==◌, ==_refl, contains,
}
use native.Mathlib.Nat.{mod-lt}
use agent_learn.MapReduce.{
  partition, empty_buckets, map_splits, reduce_buckets, run_splits, run, RunStats,
}
use agent_learn.MapReduce.Split.{split_input-concat}
use agent_learn.MapReduce.Shuffle.{values_of}
use agent_learn.MapReduce.Mapping.{
  emitted, share, values_of-share, mapped_to, empty-mapped_to, map_splits-mapped_to,
}
use agent_learn.MapReduce.Reducing.{reduced, updated, updated-none, among}

module _ {ℓ} {V R : Type ℓ} (by_text : List ℕ → List ℕ) (reducer : ℕ → List V → R) where
  -- What `run` returns, from the buckets and the number of the pairs.
  abbrev results_of : List (List (ℕ × V)) × ℕ → List (ℕ × R)
  results_of mapped = reduce_buckets by_text reducer mapped.0 []

  abbrev returned {κ} :
      {A : Type κ} → ℕ → List A → List (List (ℕ × V)) × ℕ → Option (List (ℕ × R) × RunStats)
  returned reducers lines mapped = some (
    results_of mapped,
    record {
      input_records = length lines;
      map_output_records = mapped.1;
      reducer_count = reducers;
      output_keys = length (results_of mapped);
    },
  )

-- A key finds its result in the bucket that its hash names.
key_result {ℓ} :
    {A V R : Type ℓ} (hash : ℕ → ℕ) (by_text : List ℕ → List ℕ) (more_reducers : ℕ)
    (mapper : A → List (ℕ × V)) (reducer : ℕ → List V → R) (pairs : List (ℕ × V))
    → ((key : ℕ) (ks : List ℕ) → contains key (by_text ks) ≡ contains key ks)
    → (key : ℕ)
    → lookup key (results_of by_text reducer (mapped_to hash (suc more_reducers) mapper pairs))
      ≡ reduced reducer key (values_of key pairs)
unfolding lookup
key_result hash by_text more_reducers mapper reducer pairs keeps key =
    let n = suc more_reducers in
    let p = partition hash key n in
    let here = values_of-share hash n mapper key pairs p in
    let low : hash key % n < n = mod-lt (hash key) (omega arith) in
    let less : p < 0 + n = omega (arith, low) in
    let elsewhere : (m : ℕ) → m ≢ p → values_of key (share hash n mapper pairs m) ≡ [] = λ m away.
      let apart : (m == p) ≡ false = ground (arith, away) in
      values_of-share hash n mapper key pairs m ∙ rw apart refl in
    among by_text reducer keeps key p (share hash n mapper pairs) elsewhere 0 n [] (omega arith)
      less
    ∙ ap (λ vs. updated by_text reducer keeps key vs none) (here ∙ rw (==_refl p) refl)
    ∙ updated-none by_text reducer keeps key (values_of key pairs)

-- If the sort by text keeps the keys that it is given, then for any mapper, reducer and hash, with at
-- least one reducer and at least one split, a run returns a dictionary that has exactly the keys that
-- the mapper emitted, each with what the reducer makes of all its values in the order of the lines,
-- however many reducers and splits there are; and the statistics count the lines, the emitted pairs,
-- the reducers and the keys of that dictionary.
pub run-refines {ℓ} :
    {A V R : Type ℓ} (hash : ℕ → ℕ) (by_text : List ℕ → List ℕ) (more_reducers more_splits : ℕ)
    (mapper : A → List (ℕ × V)) (reducer : ℕ → List V → R) (lines : List A)
    → ((key : ℕ) (ks : List ℕ) → contains key (by_text ks) ≡ contains key ks)
    → (results : List (ℕ × R)) × ((run hash by_text
            (suc more_reducers)
            mapper
            reducer
            lines
            (suc more_splits)
          ≡ some (
            results,
            record {
              input_records = length lines;
              map_output_records = length (emitted mapper lines);
              reducer_count = suc more_reducers;
              output_keys = length results;
            },
          ))
        × ((key : ℕ)
            → lookup key results ≡ reduced reducer key (values_of key (emitted mapper lines))))
unfolding run run_splits
run-refines hash by_text more_reducers more_splits mapper reducer lines keeps =
    let (chunks, (split, (whole, rest))) = split_input-concat lines more_splits in
    let n = suc more_reducers in
    let pairs = emitted mapper lines in
    let mapped : map_splits hash n mapper chunks (empty_buckets n, 0)
        ≡ mapped_to hash n mapper pairs =
      ap (map_splits hash n mapper chunks) (empty-mapped_to hash n mapper)
      ∙ map_splits-mapped_to hash n mapper chunks []
      ∙ ap (λ l. mapped_to hash n mapper (emitted mapper l)) whole in
    let ready : (suc more_reducers == 0) ≡ false = ground arith in
    let results = results_of by_text reducer (mapped_to hash n mapper pairs) in
    (
      results,
      (
        rw (ready, split, run_splits) (ap (returned by_text reducer n lines) mapped),
        λ key. key_result hash by_text more_reducers mapper reducer pairs keeps key,
      ),
    )
