-- ===== src/MapReduce/Examples.antt =====
-- The theorems on the MapReduce engine at a count of words, of which each is a number.
use agent_learn.Base.{ℕ, ◌*◌, ◌≡◌, refl, some, List, [], ◌∷◌, length, lookup, min}
use agent_learn.MapReduce.{split_input, run}
use agent_learn.MapReduce.Split.{concat, Balanced, split_input-concat}
use agent_learn.MapReduce.Shuffle.{values_of}
use agent_learn.MapReduce.Mapping.{emitted}
use agent_learn.MapReduce.Reducing.{reduced}
use agent_learn.MapReduce.Reference.{run-refines}

abbrev lines : List (List ℕ)
lines = (7 ∷ 5 ∷ 7 ∷ []) ∷ (5 ∷ []) ∷ [] ∷ (8 ∷ 7 ∷ []) ∷ []

abbrev each_once : List ℕ → List (ℕ × ℕ)
each_once [] = []
each_once (word ∷ words) = (word, 1) ∷ each_once words

abbrev count : ℕ → List ℕ → ℕ
count word ones = length ones

abbrev hash : ℕ → ℕ
hash word = word * 31

abbrev in_order : List ℕ → List ℕ
in_order ks = ks

split_input-concat_example :
    (chunks : List (List (List ℕ))) × ((split_input lines 3 ≡ some chunks)
      × ((concat chunks ≡ lines) × ((length chunks ≡ min 3 4) × Balanced chunks)))
split_input-concat_example = split_input-concat lines 2

run-refines_example :
    (results : List (ℕ × ℕ)) × ((run hash in_order 2 each_once count lines 3
        ≡ some (
          results,
          record {
            input_records = 4;
            map_output_records = length (emitted each_once lines);
            reducer_count = 2;
            output_keys = length results;
          },
        ))
      × ((key : ℕ)
          → lookup key results ≡ reduced count key (values_of key (emitted each_once lines))))
run-refines_example = run-refines hash in_order 1 2 each_once count lines λ key ks. refl
