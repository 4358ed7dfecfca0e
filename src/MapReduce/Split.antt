-- ===== src/MapReduce/Split.antt =====
-- The chunks against the lines that they come from.
use agent_learn.Base.{
  ℕ, zero, suc, ◌+◌, ◌*◌, ◌-◌, ◌/◌, ◌%◌, ◌≤◌, ◌<◌, ◌≡◌, refl, sym, ap, ◌∙◌, some, List, [], ◌∷◌,
  ◌++◌, arith, length, min, All,
}
use mathlib.Core.List.{append_assoc, append-nil}
use native.Mathlib.Nat.{mul-zero, mod-add-div, mod-lt}
use agent_learn.MapReduce.{take, drop, size_of, chunks_from, split_input}

unfoldable pub concat {ℓ} : {A : Type ℓ} → List (List A) → List A
concat [] = []
concat (xs ∷ xss) = xs ++ concat xss

module _ {ℓ} {A : Type ℓ} where
  take-drop : (n : ℕ) (xs : List A) → take n xs ++ drop n xs ≡ xs
  unfolding take drop
  take-drop zero xs = refl
  take-drop (suc n) [] = refl
  take-drop (suc n) (x ∷ xs) = ap (λ l. x ∷ l) (take-drop n xs)

  drop-nil : (n : ℕ) → drop {A = A} n [] ≡ []
  unfolding drop
  drop-nil zero = refl
  drop-nil (suc n) = refl

  drop-add : (m n : ℕ) (xs : List A) → drop n (drop m xs) ≡ drop (m + n) xs
  unfolding drop
  drop-add zero n xs = ap (λ k. drop k xs) (omega arith)
  drop-add (suc m) n [] = drop-nil n ∙ sym (drop-nil (suc m + n))
  drop-add (suc m) n (x ∷ xs) =
      let same : suc (m + n) ≡ suc m + n = omega arith in
      drop-add m n xs ∙ ap (λ k. drop k (x ∷ xs)) same

  drop-all : (n : ℕ) (xs : List A) → length xs ≤ n → drop n xs ≡ []
  unfolding drop
  drop-all zero [] h = refl
  drop-all zero (x ∷ xs) h = absurd (omega arith)
  drop-all (suc n) [] h = refl
  drop-all (suc n) (x ∷ xs) h = drop-all n xs (omega arith)

  length-drop : (n : ℕ) (xs : List A) → length (drop n xs) ≡ length xs - n
  unfolding drop
  length-drop zero xs = omega arith
  length-drop (suc n) [] = omega arith
  length-drop (suc n) (x ∷ xs) = omega (arith, length-drop n xs)

  length-take : (n : ℕ) (xs : List A) → length (take n xs) ≡ min n (length xs)
  unfolding take
  length-take zero xs = omega arith
  length-take (suc n) [] = omega arith
  length-take (suc n) (x ∷ xs) = omega (arith, length-take n xs)

-- The lines of `count` chunks from `index` on.
sizes : ℕ → ℕ → ℕ → ℕ → ℕ
sizes q r index zero = 0
sizes q r index (suc count) = size_of q r index + sizes q r (index + 1) count

sizes-sum :
    (q r index count : ℕ) → sizes q r index count + min r index ≡ count * q + min r (index + count)
unfolding sizes
sizes-sum q r index zero = omega arith
sizes-sum q r index (suc count) = let rest = sizes-sum q r (index + 1) count in ground arith

module _ {ℓ} {A : Type ℓ} (lines : List A) (q r : ℕ) where
  concat-chunks :
      (index start count : ℕ)
      → concat (chunks_from lines q r index start count)
          ++ drop (start + sizes q r index count) lines
        ≡ drop start lines
  unfolding concat chunks_from sizes
  concat-chunks index start zero = ap (λ k. drop k lines) (omega arith)
  concat-chunks index start (suc count) =
      let size = size_of q r index in
      let rest = concat-chunks (index + 1) (start + size) count in
      let same : start + (size + sizes q r (index + 1) count)
          ≡ start + size + sizes q r (index + 1) count =
        omega arith in
      let left = take size (drop start lines) in
      append_assoc left _ _
      ∙ ap
          (λ k.
            left
            ++ (concat (chunks_from lines q r (index + 1) (start + size) count) ++ drop k lines))
          same
      ∙ ap (λ l. left ++ l) (rest ∙ sym (drop-add start size lines))
      ∙ take-drop size (drop start lines)

  chunks-balanced :
      (index start count : ℕ)
      → start + sizes q r index count ≤ length lines
      → All (λ c. (q ≤ length c) × (length c ≤ q + 1)) (chunks_from lines q r index start count)
        × (length (chunks_from lines q r index start count) ≡ count)
  unfolding chunks_from sizes
  chunks-balanced index start zero h = (tt, refl)
  chunks-balanced index start (suc count) h =
      let size = size_of q r index in
      let rest = chunks-balanced (index + 1) (start + size) count (omega arith) in
      let left = length-drop start lines in
      let here = length-take size (drop start lines) in
      (((ground arith, ground arith), rest.0), ap suc rest.1)

quotient_pos : (m k r n : ℕ) → r + m * k ≡ n → r < m → m ≤ n → 1 ≤ k
quotient_pos m zero r n sum less fit = let none_left = mul-zero m in absurd (omega arith)
quotient_pos m (suc k) r n sum less fit = omega arith

-- Chunks of at least `k` and at most `k + 1` lines.
abbrev pub Balanced {ℓ} : {A : Type ℓ} → List (List A) → Type 0
Balanced {A = A} chunks =
    (k : ℕ) × ((1 ≤ k) × All (λ (c : List A). (k ≤ length c) × (length c ≤ k + 1)) chunks)

-- For any lines and a positive number of splits, `split_input` returns chunks that, put one after the
-- other, are the lines in their order; there are as many as splits were asked for, or as there are
-- lines if those are fewer; none is empty, and their lengths differ by at most one.
pub split_input-concat {ℓ} :
    {A : Type ℓ} (lines : List A) (splits : ℕ)
    → (chunks : List (List A)) × ((split_input lines (suc splits) ≡ some chunks)
        × ((concat chunks ≡ lines)
            × ((length chunks ≡ min (suc splits) (length lines)) × Balanced chunks)))
unfolding split_input concat drop
split_input-concat [] splits = ([], (refl, (refl, (omega arith, (1, (omega arith, tt))))))
split_input-concat (x ∷ xs) splits =
    let lines = x ∷ xs in
    let n = length lines in
    let chunks = min (suc splits) n in
    let q = n / chunks in
    let r = n % chunks in
    let sum = sizes-sum q r 0 chunks in
    let positive : 0 < chunks = omega arith in
    let division = mod-add-div n chunks in
    let less = mod-lt n positive in
    let all : sizes q r 0 chunks ≡ n = omega arith in
    let whole = concat-chunks lines q r 0 0 chunks in
    let balanced = chunks-balanced lines q r 0 0 chunks (omega arith) in
    (
      chunks_from lines q r 0 0 chunks,
      (
        refl,
        (
          sym (append-nil (concat (chunks_from lines q r 0 0 chunks)))
              ∙ ap (λ l. concat (chunks_from lines q r 0 0 chunks) ++ l)
                  (sym (drop-all (0 + sizes q r 0 chunks) lines (omega arith)))
              ∙ whole,
          (balanced.1, (q, (quotient_pos chunks q r n division less (omega arith), balanced.0))),
        ),
      ),
    )
