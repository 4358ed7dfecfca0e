-- ===== src/MapReduce.antt =====
-- python_mini_mapreduce/minimapreduce/engine.py, `MiniMapReduce`. The types of the records, values and
-- results are arbitrary; the keys are numbers. The mapper, the reducer, Python's `hash` and its
-- `sorted` by the text of a key are parameters. A `ValueError` is `none`.
pub mod Split
pub mod Shuffle
pub mod Mapping
pub mod Reducing
pub mod Reference
mod Examples
use agent_learn.Base.{
  ℕ, zero, suc, ◌+◌, ◌/◌, ◌%◌, Bool, Option, none, some, List, [], ◌∷◌, ◌++◌, map, length, ltb,
  ◌==◌, min, if◌then◌else◌, lookup, insert,
}

-- `lines[start:start + size]`, in two steps.
unfoldable pub take {ℓ} : {A : Type ℓ} → ℕ → List A → List A
take zero xs = []
take (suc n) [] = []
take (suc n) (x ∷ xs) = x ∷ take n xs

unfoldable pub drop {ℓ} : {A : Type ℓ} → ℕ → List A → List A
drop zero xs = xs
drop (suc n) [] = []
drop (suc n) (x ∷ xs) = drop n xs

-- `quotient + (1 if index < remainder else 0)`.
abbrev pub size_of : ℕ → ℕ → ℕ → ℕ
size_of quotient remainder index = quotient + (if ltb index remainder then 1 else 0)

-- The loop of `split_input`, for the `count` chunks from `index` on.
unfoldable pub chunks_from {ℓ} : {A : Type ℓ} → List A → ℕ → ℕ → ℕ → ℕ → ℕ → List (List A)
chunks_from lines quotient remainder index start zero = []
chunks_from lines quotient remainder index start (suc count) =
    let size = size_of quotient remainder index in
    take size (drop start lines)
    ∷ chunks_from lines quotient remainder (index + 1) (start + size) count

unfoldable pub split_input {ℓ} : {A : Type ℓ} → List A → ℕ → Option (List (List A))
split_input lines zero = none
split_input [] (suc splits) = some []
split_input (line ∷ lines) (suc splits) =
    let n = length (line ∷ lines) in
    let chunks = min (suc splits) n in
    some (chunks_from (line ∷ lines) (n / chunks) (n % chunks) 0 0 chunks)

abbrev pub partition : (ℕ → ℕ) → ℕ → ℕ → ℕ
partition hash key reducers = hash key % reducers

-- `RunStats`.
pub record RunStats : Type 0 where
  pub input_records : ℕ
  pub map_output_records : ℕ
  pub reducer_count : ℕ
  pub output_keys : ℕ

-- `[[] for _ in range(reducers)]`.
unfoldable pub empty_buckets {ℓ} : {P : Type ℓ} → ℕ → List (List P)
empty_buckets zero = []
empty_buckets (suc n) = [] ∷ empty_buckets n

-- `reducer_buckets[i].append(pair)`.
unfoldable pub append_at {ℓ} : {P : Type ℓ} → ℕ → P → List (List P) → List (List P)
append_at i pair [] = []
append_at zero pair (b ∷ bs) = (b ++ pair ∷ []) ∷ bs
append_at (suc i) pair (b ∷ bs) = b ∷ append_at i pair bs

module _ {ℓ} {A V : Type ℓ} (hash : ℕ → ℕ) (reducers : ℕ) (mapper : A → List (ℕ × V)) where
  -- The buckets and `map_output_records`, after the pairs of one record, one split and all splits.
  unfoldable pub map_pairs : List (ℕ × V) → List (List (ℕ × V)) × ℕ → List (List (ℕ × V)) × ℕ
  map_pairs [] state = state
  map_pairs ((key, value) ∷ pairs) (buckets, records) =
      map_pairs pairs (append_at (partition hash key reducers) (key, value) buckets, records + 1)

  unfoldable pub map_split : List A → List (List (ℕ × V)) × ℕ → List (List (ℕ × V)) × ℕ
  map_split [] state = state
  map_split (record_ ∷ split) state = map_split split (map_pairs (mapper record_) state)

  unfoldable pub map_splits : List (List A) → List (List (ℕ × V)) × ℕ → List (List (ℕ × V)) × ℕ
  map_splits [] state = state
  map_splits (split ∷ splits) state = map_splits splits (map_split split state)

module _ {ℓ} {V : Type ℓ} where
  -- `grouped[key]` of a `defaultdict(list)`.
  abbrev pub group_at : ℕ → List (ℕ × List V) → List V
  group_at key grouped = elim (lookup key grouped) [ none ↦ [] | some values ↦ values ]

  unfoldable pub group : List (ℕ × V) → List (ℕ × List V) → List (ℕ × List V)
  group [] grouped = grouped
  group ((key, value) ∷ pairs) grouped =
      group pairs (insert key (group_at key grouped ++ value ∷ []) grouped)

  unfoldable pub keys : List (ℕ × List V) → List ℕ
  keys [] = []
  keys ((key, values) ∷ grouped) = key ∷ keys grouped

module _ {ℓ} {V R : Type ℓ} (by_text : List ℕ → List ℕ) (reducer : ℕ → List V → R) where
  unfoldable pub reduce_keys : List ℕ → List (ℕ × List V) → List (ℕ × R) → List (ℕ × R)
  reduce_keys [] grouped results = results
  reduce_keys (key ∷ ks) grouped results =
      reduce_keys ks grouped (insert key (reducer key (group_at key grouped)) results)

  unfoldable pub reduce_bucket : List (ℕ × V) → List (ℕ × R) → List (ℕ × R)
  reduce_bucket pairs results =
      let grouped = group pairs [] in reduce_keys (by_text (keys grouped)) grouped results

  unfoldable pub reduce_buckets : List (List (ℕ × V)) → List (ℕ × R) → List (ℕ × R)
  reduce_buckets [] results = results
  reduce_buckets (pairs ∷ buckets) results = reduce_buckets buckets (reduce_bucket pairs results)

module _ {ℓ} {A V R : Type ℓ} (hash : ℕ → ℕ) (by_text : List ℕ → List ℕ) (reducers : ℕ)
    (mapper : A → List (ℕ × V)) (reducer : ℕ → List V → R) where
  unfoldable pub run_splits : List A → Option (List (List A)) → Option (List (ℕ × R) × RunStats)
  run_splits lines none = none
  run_splits lines (some splits) =
      let mapped = map_splits hash reducers mapper splits (empty_buckets reducers, 0) in
      let results = reduce_buckets by_text reducer mapped.0 [] in
      some (
        results,
        record {
          input_records = length lines;
          map_output_records = mapped.1;
          reducer_count = reducers;
          output_keys = length results;
        },
      )

  -- `MiniMapReduce(reducers).run(lines, mapper, reducer, mapper_count)`.
  unfoldable pub run : List A → ℕ → Option (List (ℕ × R) × RunStats)
  run lines mapper_count =
      if reducers == 0 then none else run_splits lines (split_input lines mapper_count)
