-- ===== src/Latency/Rank.antt =====
-- Which of the samples `Percentile` returns.
use mathlib.Core.Path.{subst}
use nrt_aggragator.Prelude.{
  ℕ, zero, suc, ◌-◌, ◌≤◌, ◌<◌, ◌≡◌, refl, sym, false, not, List, [], ◌∷◌, arith, length, All,
  get_or, get_or_All, count_of,
}
use nrt_aggragator.Prelude.Int.{ℤ, pos, ltb_ℤ, ltb_ℤ_asym}
use nrt_aggragator.Prelude.Sort.{sort, sort-IsSorted, length-sort, count_of-sort, IsSorted}
use nrt_aggragator.Prelude.Ranking.{Anything, All-Anything, IsSorted-head, IsSorted-tail}
use nrt_aggragator.Prelude.Float.{Float, of_ℕ}
use nrt_aggragator.Latency.{LatencyTracker, clamp_index, percentile_of, percentile}

-- The value with `i` below it in the order of the samples: more than `i` of them are at most it, and
-- at most `i` are less.
abbrev pub IsRank : ℕ → List ℤ → ℤ → Type 0
IsRank i samples v =
    (suc i ≤ count_of (λ s. not (ltb_ℤ v s)) samples) × (count_of (λ s. ltb_ℤ s v) samples ≤ i)

ltb_ℤ_trans : (a b c : ℤ) → ltb_ℤ b a ≡ false → ltb_ℤ c b ≡ false → ltb_ℤ c a ≡ false
ltb_ℤ_trans a b c h k = ground arith

none_below :
    (v : ℤ) (ss : List ℤ) → All (λ s. ltb_ℤ s v ≡ false) ss → count_of (λ s. ltb_ℤ s v) ss ≡ 0
none_below v [] h = refl
none_below v (s ∷ ss) (p, ps) = rw p (none_below v ss ps)

first_above : (s : ℤ) (ss : List ℤ) → IsSorted ltb_ℤ (s ∷ ss) → All (λ t. ltb_ℤ t s ≡ false) ss
first_above s ss h =
    IsSorted-head ltb_ℤ Anything (λ a b c p q r h k. ltb_ℤ_trans a b c h k) s ss tt
      (All-Anything ss) h

sorted-IsRank :
    (ss : List ℤ) (i : ℕ) → IsSorted ltb_ℤ ss → i < length ss → IsRank i ss (get_or ss i (pos 0))
sorted-IsRank [] i h small = absurd (omega arith)
sorted-IsRank (s ∷ ss) zero h small =
    (ground arith, ground (arith, none_below s ss (first_above s ss h)))
sorted-IsRank (s ∷ ss) (suc i) h small =
    let v = get_or ss i (pos 0) in
    let ih =
      sorted-IsRank ss i
        (IsSorted-tail ltb_ℤ Anything (λ a b c p q r h k. ltb_ℤ_trans a b c h k) s ss h)
        (omega arith) in
    let above =
      get_or_All (λ t. ltb_ℤ t s ≡ false) ss i (pos 0) (omega arith) (first_above s ss h) in
    (ground (arith, ih.0, above), ground (arith, ih.1))

sort-IsRank : (i : ℕ) (ss : List ℤ) → i < length ss → IsRank i ss (get_or (sort ltb_ℤ ss) i (pos 0))
sort-IsRank i ss h =
    let v = get_or (sort ltb_ℤ ss) i (pos 0) in
    omega (
      arith,
      sorted-IsRank (sort ltb_ℤ ss) i (sort-IsSorted ltb_ℤ ltb_ℤ_asym ss)
          (omega (arith, length-sort ltb_ℤ ss)),
      count_of-sort (λ s. not (ltb_ℤ v s)) ltb_ℤ ss,
      count_of-sort (λ s. ltb_ℤ s v) ltb_ℤ ss,
    )

clamp_index-eq : (i n : ℕ) → i < n → clamp_index (pos i) n ≡ i
unfolding clamp_index
clamp_index-eq i n h = ground arith

module _ {ℓ} {F : Type ℓ} ⦃f : Float F⦄ where
  percentile_of-eq :
      (p : F) (i : ℕ) (s : ℤ) (ss : List ℤ)
      → f.le p (f.decimal 0 0) ≡ false
      → f.le (f.decimal 100 0) p ≡ false
      → f.to_int (f.mul (f.div p (f.decimal 100 0)) (of_ℕ (length (s ∷ ss) - 1))) ≡ pos i
      → i < length (s ∷ ss)
      → percentile_of (s ∷ ss) p ≡ get_or (sort ltb_ℤ (s ∷ ss)) i (pos 0)
  unfolding percentile_of
  percentile_of-eq p i s ss above below e h =
      rw (above, below, length-sort ltb_ℤ (s ∷ ss), e, clamp_index-eq i (length (s ∷ ss)) h) refl

  -- Strictly between 0 and 100, a percentile of n samples is the one with as many below it, in their
  -- order, as the source's index says, if that is one of 0 to n - 1.
  pub percentile-IsRank :
      (l : LatencyTracker) (p : F) (i : ℕ)
      → f.le p (f.decimal 0 0) ≡ false
      → f.le (f.decimal 100 0) p ≡ false
      → f.to_int (f.mul (f.div p (f.decimal 100 0)) (of_ℕ (length l.samples - 1))) ≡ pos i
      → i < length l.samples
      → IsRank i l.samples (percentile l p)
  unfolding percentile
  percentile-IsRank l p i above below index small = ranked l.samples index small
    where
      ranked :
          (ss : List ℤ)
          → f.to_int (f.mul (f.div p (f.decimal 100 0)) (of_ℕ (length ss - 1))) ≡ pos i
          → i < length ss
          → IsRank i ss (percentile (record l { samples = ss }) p)
      ranked [] e h = absurd (omega arith)
      ranked (s ∷ ss) e h =
          subst (IsRank i (s ∷ ss)) (sym (percentile_of-eq p i s ss above below e h))
            (sort-IsRank i (s ∷ ss) h)
