-- ===== src/Base/Assoc.antt =====
-- A Python dict as an association list: a write to a present key keeps its position, a new key
-- goes to the end, and at most one entry of a key is read.
use Prim.Native.Nat.{ℕ}
use mathlib.Core.Path.{◌≡◌, refl}
use mathlib.Core.Option.{Option, none, some}
use mathlib.Core.List.{List, [], ◌∷◌}
use native.Mathlib.Omega.{arith}
use mathlib.Core.Path.{ap, subst, ◌∙◌}
use Prim.Native.Nat.{◌+◌, ◌≤◌}
use mathlib.Core.Logic.{inl, inr}
use mathlib.Core.Option.{some-injective}
use agent_learn.Base.Lists.{length, All}
use agent_learn.Base.Tests.{◌==◌, if◌then◌else◌, ==_refl, ==_iff, Bool-cases}

module _ {ℓ} {V : Type ℓ} where
  unfoldable pub lookup : ℕ → List (ℕ × V) → Option V
  lookup key [] = none
  lookup key ((other, value) ∷ dict) = if other == key then some value else lookup key dict

  unfoldable pub insert : ℕ → V → List (ℕ × V) → List (ℕ × V)
  insert key value [] = (key, value) ∷ []
  insert key value ((other, old) ∷ dict) =
      if other == key then (key, value) ∷ dict else (other, old) ∷ insert key value dict

  -- `pop(key, None)`.
  unfoldable pub erase : ℕ → List (ℕ × V) → List (ℕ × V)
  erase key [] = []
  erase key ((other, old) ∷ dict) =
      let rest = erase key dict in if other == key then rest else (other, old) ∷ rest

  pub lookup-insert :
      (written read : ℕ) (value : V) (dict : List (ℕ × V))
      → lookup read (insert written value dict)
        ≡ (if written == read then some value else lookup read dict)
  unfolding lookup insert
  lookup-insert written read value [] = refl
  lookup-insert written read value (entry ∷ dict) =
      ground (arith, lookup-insert written read value dict)

  pub lookup-insert_self :
      (key : ℕ) (value : V) (dict : List (ℕ × V)) → lookup key (insert key value dict) ≡ some value
  lookup-insert_self key value dict = simp (lookup-insert, ==_refl)

  pub lookup-erase :
      (erased read : ℕ) (dict : List (ℕ × V))
      → lookup read (erase erased dict) ≡ (if erased == read then none else lookup read dict)
  unfolding lookup erase
  lookup-erase erased read [] = ground arith
  lookup-erase erased read (entry ∷ dict) = ground (arith, lookup-erase erased read dict)

  -- No key twice.
  abbrev pub Unique : List (ℕ × V) → Type ℓ
  Unique [] = Unit
  Unique ((k, v) ∷ m) = (lookup k m ≡ none) × Unique m

  pub insert-Unique : (k : ℕ) (v : V) (m : List (ℕ × V)) → Unique m → Unique (insert k v m)
  unfolding insert lookup
  insert-Unique k v [] u = (refl, tt)
  insert-Unique k v ((j, w) ∷ m) u = ground (arith, insert-Unique k v m u.1, lookup-insert k j v m)

  pub insert-fresh :
      (k : ℕ) (v : V) (m : List (ℕ × V)) → lookup k m ≡ none → length (insert k v m) ≡ length m + 1
  unfolding insert lookup
  insert-fresh k v [] h = refl
  insert-fresh k v ((j, w) ∷ m) h = elim (Bool-cases (j == k)) [
    | inl e ↦ absurd (ground arith)
    | inr e ↦ let rest = insert-fresh k v m (rw e at h) in rw e (omega arith)
  ]

  pub length-erase-le : (k : ℕ) (m : List (ℕ × V)) → length (erase k m) ≤ length m
  unfolding erase
  length-erase-le k [] = omega arith
  length-erase-le k ((j, w) ∷ m) = ground (arith, length-erase-le k m)

  pub erase-absent : (k : ℕ) (m : List (ℕ × V)) → lookup k m ≡ none → erase k m ≡ m
  unfolding erase lookup
  erase-absent k [] h = refl
  erase-absent k ((j, w) ∷ m) h = elim (Bool-cases (j == k)) [
    | inl e ↦ absurd (ground arith)
    | inr e ↦ rw e (ap (λ l. (j, w) ∷ l) (erase-absent k m (rw e at h)))
  ]

  pub erase-Unique : (k : ℕ) (m : List (ℕ × V)) → Unique m → Unique (erase k m)
  unfolding erase
  erase-Unique k [] u = tt
  erase-Unique k ((j, w) ∷ m) u =
      let rest = erase-Unique k m u.1 in
      elim (Bool-cases (j == k)) [
        | inl e ↦ rw e rest
        | inr e ↦ rw e ((lookup-erase k j m ∙ ground (arith, u.0)), rest)
      ]

  pub erase-present :
      (k : ℕ) (v : V) (m : List (ℕ × V))
      → Unique m
      → lookup k m ≡ some v
      → length (erase k m) + 1 ≡ length m
  unfolding erase lookup
  erase-present k v [] u h = absurd (ground arith)
  erase-present k v ((j, w) ∷ m) u h = elim (Bool-cases (j == k)) [
    | inl e ↦
        let gone : lookup k m ≡ none = subst (λ i. lookup i m ≡ none) ((==_iff j k).0 e) u.0 in
        rw (e, erase-absent k m gone) (omega arith)
    | inr e ↦ let rest = erase-present k v m u.1 (rw e at h) in rw e (omega arith)
  ]

-- Entries of a dictionary after a write and after an erasure.
module _ {ℓ κ} {V : Type ℓ} (P : ℕ × V → Type κ) where
  pub insert-All : (k : ℕ) (v : V) (m : List (ℕ × V)) → P (k, v) → All P m → All P (insert k v m)
  unfolding insert
  insert-All k v [] p all = (p, tt)
  insert-All k v ((j, w) ∷ m) p all = elim (Bool-cases (j == k)) [
    | inl e ↦ rw e (p, all.1)
    | inr e ↦ rw e (all.0, insert-All k v m p all.1)
  ]

  pub erase-All : (k : ℕ) (m : List (ℕ × V)) → All P m → All P (erase k m)
  unfolding erase
  erase-All k [] all = tt
  erase-All k ((j, w) ∷ m) all = elim (Bool-cases (j == k)) [
    | inl e ↦ rw e (erase-All k m all.1)
    | inr e ↦ rw e (all.0, erase-All k m all.1)
  ]

  pub lookup-All : (k : ℕ) (v : V) (m : List (ℕ × V)) → All P m → lookup k m ≡ some v → P (k, v)
  unfolding lookup
  lookup-All k v [] all h = absurd (ground arith)
  lookup-All k v ((j, w) ∷ m) all h = elim (Bool-cases (j == k)) [
    | inl e ↦
        subst (λ e. P e)
          (ap (λ i. (i, w)) ((==_iff j k).0 e) ∙ ap (λ x. (k, x)) (some-injective w v (rw e at h)))
          all.0
    | inr e ↦ lookup-All k v m all.1 (rw e at h)
  ]
