-- ===== src/Prelude/Ranking.antt =====
-- The first entries of a list that is sorted.
use mathlib.Core.List.{Perm}
use Prim.Native.Nat.{ℕ, zero, suc, min}
use mathlib.Core.Path.{◌≡◌}
use mathlib.Core.Bool.{Bool, true, false}
use mathlib.Core.List.{List, [], ◌∷◌, ◌++◌}
use native.Mathlib.Omega.{arith}
use nrt_aggragator.Prelude.Lists.{length, take, drop, All, All-drop, length-take, take-append-drop}
use nrt_aggragator.Prelude.Sort.{
  sort, sort-perm, sort-All, length-sort, sort-IsSorted, IsSorted, IsSorted-take,
}

-- no condition on the entries
abbrev pub Anything {ℓ} : {A : Type ℓ} → A → Type 0
Anything a = Unit

pub All-Anything {ℓ} : {A : Type ℓ} (xs : List A) → All Anything xs
All-Anything [] = tt
All-Anything (x ∷ xs) = (tt, All-Anything xs)

module _ {ℓ} {A : Type ℓ} (less : A → A → Bool) where
  -- The first `n` entries of a ranking of `all`, or all if they are fewer, and the rest, none of
  -- which is before any of them.
  pub record IsTop (n : ℕ) (all top : List A) : Type ℓ where
    pub bounded : length top ≡ min n (length all)
    pub ranked : IsSorted less top
    pub rest : List A
    pub same : Perm (top ++ rest) all
    pub cut : All (λ a. All (λ b. less b a ≡ false) rest) top

  module _ {κ} (P : A → Type κ)
      (trans : (a b c : A)
        → P a
        → P b
        → P c
        → less b a ≡ false
        → less c b ≡ false
        → less c a ≡ false) where
    pub IsSorted-head :
        (x : A) (ys : List A)
        → P x
        → All P ys
        → IsSorted less (x ∷ ys)
        → All (λ y. less y x ≡ false) ys
    IsSorted-head x [] p ps s = tt
    IsSorted-head x (y ∷ []) p ps s = (s.0, tt)
    IsSorted-head x (y ∷ z ∷ zs) p (q, (r, rs)) (s, (t, ss)) =
        (s, IsSorted-head x (z ∷ zs) p (r, rs) (trans x y z p q r s t, ss))

    pub IsSorted-tail : (x : A) (ys : List A) → IsSorted less (x ∷ ys) → IsSorted less ys
    IsSorted-tail x [] s = tt
    IsSorted-tail x (y ∷ ys) s = s.1

    IsSorted-cut :
        (n : ℕ) (xs : List A)
        → All P xs
        → IsSorted less xs
        → All (λ a. All (λ b. less b a ≡ false) (drop n xs)) (take n xs)
    IsSorted-cut zero xs ps s = tt
    IsSorted-cut (suc n) [] ps s = tt
    IsSorted-cut (suc n) (x ∷ xs) (p, ps) s = (
      All-drop (λ b. less b x ≡ false) n xs (IsSorted-head x xs p ps s),
      IsSorted-cut n xs ps (IsSorted-tail x xs s),
    )

    -- What is left of a list that is sorted, and then cut.
    pub take-sort-IsTop :
        (n : ℕ) (xs : List A)
        → ((a b : A) → less a b ≡ true → less b a ≡ false)
        → All P xs
        → IsTop n xs (take n (sort less xs))
    take-sort-IsTop n xs asym ps =
        let sorted = sort-IsSorted less asym xs in
        record {
          bounded = ground (arith, length-take n (sort less xs), length-sort less xs);
          ranked = IsSorted-take less n (sort less xs) sorted;
          rest = drop n (sort less xs);
          same = rw (take-append-drop n (sort less xs)) (sort-perm less xs);
          cut = IsSorted-cut n (sort less xs) (sort-All P less xs ps) sorted;
        }
