-- ===== src/Prelude/Sort.antt =====
-- `sort.SliceStable` by its comparison. `sort.Slice` and `sort.Float64s` promise some sorted
-- permutation; the stable one is the one that the models take.
use mathlib.Core.List.Perm
use mathlib.Core.List.{Perm}
use Prim.Native.Nat.{ℕ, zero, suc}
use mathlib.Core.Path.{◌≡◌, refl}
use mathlib.Core.Bool.{Bool, true, false}
use mathlib.Core.List.{List, [], ◌∷◌}
use mathlib.Core.Logic.{inl, inr}
use native.Mathlib.Omega.{arith}
use nrt_aggragator.Prelude.Tests.{if◌then◌else◌, Bool-cases}
use nrt_aggragator.Prelude.Lists.{length, take, All, count_of}

module _ {ℓ} {A : Type ℓ} where
  unfoldable pub insert : (A → A → Bool) → A → List A → List A
  insert less x [] = x ∷ []
  insert less x (y ∷ ys) = if less y x then y ∷ insert less x ys else x ∷ y ∷ ys

  unfoldable pub sort : (A → A → Bool) → List A → List A
  unfolding insert
  sort less [] = []
  sort less (x ∷ xs) = insert less x (sort less xs)

  -- No neighbours are out of order.
  abbrev pub IsSorted : (A → A → Bool) → List A → Type 0
  IsSorted less [] = Unit
  IsSorted less (x ∷ []) = Unit
  IsSorted less (x ∷ y ∷ ys) = (less y x ≡ false) × IsSorted less (y ∷ ys)

  insert-perm : (less : A → A → Bool) (x : A) (ys : List A) → Perm (insert less x ys) (x ∷ ys)
  unfolding insert
  insert-perm less x [] = Perm.refl (x ∷ [])
  insert-perm less x (y ∷ ys) = elim (Bool-cases (less y x)) [
    | inl e ↦ rw e (Perm.trans (Perm.cons y (insert-perm less x ys)) (Perm.swap x y ys))
    | inr e ↦ rw e (Perm.refl (x ∷ y ∷ ys))
  ]

  pub sort-perm : (less : A → A → Bool) (xs : List A) → Perm (sort less xs) xs
  unfolding sort
  sort-perm less [] = Perm.refl []
  sort-perm less (x ∷ xs) =
      Perm.trans (insert-perm less x (sort less xs)) (Perm.cons x (sort-perm less xs))

  length-insert :
      (less : A → A → Bool) (x : A) (ys : List A) → length (insert less x ys) ≡ length (x ∷ ys)
  unfolding insert
  length-insert less x [] = omega arith
  length-insert less x (y ∷ ys) = ground (arith, length-insert less x ys)

  pub length-sort : (less : A → A → Bool) (xs : List A) → length (sort less xs) ≡ length xs
  unfolding sort
  length-sort less [] = omega arith
  length-sort less (x ∷ xs) =
      omega (arith, length-insert less x (sort less xs), length-sort less xs)

  insert-All {κ} :
      (P : A → Type κ) (less : A → A → Bool) (x : A) (ys : List A)
      → P x
      → All P ys
      → All P (insert less x ys)
  unfolding insert
  insert-All P less x [] p ps = (p, tt)
  insert-All P less x (y ∷ ys) p ps = elim (Bool-cases (less y x)) [
    | inl e ↦ rw e (ps.0, insert-All P less x ys p ps.1)
    | inr e ↦ rw e (p, ps)
  ]

  pub sort-All {κ} :
      (P : A → Type κ) (less : A → A → Bool) (xs : List A) → All P xs → All P (sort less xs)
  unfolding sort
  sort-All P less [] ps = tt
  sort-All P less (x ∷ xs) ps = insert-All P less x (sort less xs) ps.0 (sort-All P less xs ps.1)

  count_of-insert :
      (q : A → Bool) (less : A → A → Bool) (x : A) (ys : List A)
      → count_of q (insert less x ys) ≡ count_of q (x ∷ ys)
  unfolding insert
  count_of-insert q less x [] = refl
  count_of-insert q less x (y ∷ ys) = ground (arith, count_of-insert q less x ys)

  pub count_of-sort :
      (q : A → Bool) (less : A → A → Bool) (xs : List A) → count_of q (sort less xs) ≡ count_of q xs
  unfolding sort
  count_of-sort q less [] = refl
  count_of-sort q less (x ∷ xs) =
      ground (arith, count_of-insert q less x (sort less xs), count_of-sort q less xs)

  pub IsSorted-take :
      (less : A → A → Bool) (n : ℕ) (xs : List A) → IsSorted less xs → IsSorted less (take n xs)
  IsSorted-take less zero xs s = tt
  IsSorted-take less (suc n) [] s = tt
  IsSorted-take less (suc zero) (x ∷ xs) s = tt
  IsSorted-take less (suc (suc n)) (x ∷ []) s = tt
  IsSorted-take less (suc (suc n)) (x ∷ y ∷ ys) s = (s.0, IsSorted-take less (suc n) (y ∷ ys) s.1)

  module _ (less : A → A → Bool) (asym : (a b : A) → less a b ≡ true → less b a ≡ false) where
    insert-IsSorted : (x : A) (ys : List A) → IsSorted less ys → IsSorted less (insert less x ys)
    unfolding insert
    insert-IsSorted x [] s = tt
    insert-IsSorted x (y ∷ []) s = ground (arith, asym y x)
    insert-IsSorted x (y ∷ z ∷ zs) s = ground (arith, asym y x, insert-IsSorted x (z ∷ zs) s.1)

    -- A comparison that never holds both ways leaves no neighbours out of order.
    pub sort-IsSorted : (xs : List A) → IsSorted less (sort less xs)
    unfolding sort
    sort-IsSorted [] = tt
    sort-IsSorted (x ∷ xs) = insert-IsSorted x (sort less xs) (sort-IsSorted xs)
