-- ===== src/Latency/Percentile.antt =====
-- What `Percentile` returns, whatever the floating-point index comes to.
use nrt_aggragator.Prelude.{
  ℕ, ◌<◌, refl, List, [], ◌∷◌, arith, All, get_or_All, Bool-cases, inl, inr, if◌then◌else◌, ◌≢◌,
}
use nrt_aggragator.Prelude.Int.{ℤ, pos, negsuc, ltb_ℤ, ◌≤ℤ◌}
use nrt_aggragator.Prelude.Sort.{sort, sort-All, length-sort}
use nrt_aggragator.Prelude.Float.{Float}
use nrt_aggragator.Latency.{
  LatencyTracker, min_from, max_from, min, max, clamp_index, percentile_of, percentile,
}

clamp_index-lt : (i : ℤ) (n : ℕ) → 0 < n → clamp_index i n < n
unfolding clamp_index
clamp_index-lt (negsuc i) n h = h
clamp_index-lt (pos i) n h = ground arith

-- `min_from` keeps what holds of all candidates, and is below them.
module _ {κ} (P : ℤ → Type κ) where
  min_from-keeps : (m : ℤ) (ss : List ℤ) → P m → All P ss → P (min_from m ss)
  unfolding min_from
  min_from-keeps m [] p ps = p
  min_from-keeps m (s ∷ ss) p ps = elim (Bool-cases (ltb_ℤ s m)) [
    | inl e ↦ rw e (min_from-keeps s ss ps.0 ps.1)
    | inr e ↦ rw e (min_from-keeps m ss p ps.1)
  ]

  max_from-keeps : (m : ℤ) (ss : List ℤ) → P m → All P ss → P (max_from m ss)
  unfolding max_from
  max_from-keeps m [] p ps = p
  max_from-keeps m (s ∷ ss) p ps = elim (Bool-cases (ltb_ℤ m s)) [
    | inl e ↦ rw e (max_from-keeps s ss ps.0 ps.1)
    | inr e ↦ rw e (max_from-keeps m ss p ps.1)
  ]

abbrev AtLeast : ℤ → List ℤ → Type 0
AtLeast lo = All (λ s. lo ≤ℤ s)

abbrev AtMost : ℤ → List ℤ → Type 0
AtMost hi = All (λ s. s ≤ℤ hi)

-- the candidate that a round of the loops goes on with
lesser_le : (m s : ℤ) → let t = if ltb_ℤ s m then s else m in (t ≤ℤ m) × (t ≤ℤ s)
lesser_le m s = ground arith

le-greater : (m s : ℤ) → let t = if ltb_ℤ m s then s else m in (m ≤ℤ t) × (s ≤ℤ t)
le-greater m s = ground arith

min_from-le : (m : ℤ) (ss : List ℤ) → (min_from m ss ≤ℤ m) × AtLeast (min_from m ss) ss
unfolding min_from
min_from-le m [] = omega arith
min_from-le m (s ∷ ss) =
    let (a, b) = min_from-le (if ltb_ℤ s m then s else m) ss in
    (omega (arith, lesser_le m s), (omega (arith, lesser_le m s), b))

le-max_from : (m : ℤ) (ss : List ℤ) → (m ≤ℤ max_from m ss) × AtMost (max_from m ss) ss
unfolding max_from
le-max_from m [] = omega arith
le-max_from m (s ∷ ss) =
    let (a, b) = le-max_from (if ltb_ℤ m s then s else m) ss in
    (omega (arith, le-greater m s), (omega (arith, le-greater m s), b))

All-both :
    (lo hi : ℤ) (ss : List ℤ) → AtLeast lo ss → AtMost hi ss → All (λ s. (lo ≤ℤ s) × (s ≤ℤ hi)) ss
All-both lo hi [] a b = tt
All-both lo hi (s ∷ ss) a b = ((a.0, b.0), All-both lo hi ss a.1 b.1)

-- The extremes bound every sample.
min-max_bounds : (ss : List ℤ) → AtLeast (min ss) ss × AtMost (max ss) ss
unfolding min max
min-max_bounds [] = (tt, tt)
min-max_bounds (s ∷ ss) = (min_from-le s ss, le-max_from s ss)

module _ {ℓ} {F : Type ℓ} ⦃f : Float F⦄ where
  percentile_of-keeps {κ} :
      (P : ℤ → Type κ) (s : ℤ) (ss : List ℤ) (p : F) → All P (s ∷ ss) → P (percentile_of (s ∷ ss) p)
  unfolding percentile_of
  percentile_of-keeps P s ss p h = elim (Bool-cases (f.le p (f.decimal 0 0))) [
    | inl low ↦ rw low (min_from-keeps P s ss h.0 h.1)
    | inr above ↦ elim (Bool-cases (f.le (f.decimal 100 0) p)) [
      | inl high ↦ rw (above, high) (max_from-keeps P s ss h.0 h.1)
      | inr within ↦
          rw (above, within)
            (get_or_All P (sort ltb_ℤ (s ∷ ss)) _ (pos 0)
              (clamp_index-lt _ _ (rw (length-sort ltb_ℤ (s ∷ ss)) (omega arith)))
              (sort-All P ltb_ℤ (s ∷ ss) h))
    ]
  ]

  -- With at least one sample, the percentile is one of the samples: it has every property that they
  -- all have.
  pub percentile-keeps {κ} :
      (P : ℤ → Type κ) (l : LatencyTracker) (p : F)
      → l.samples ≢ []
      → All P l.samples
      → P (percentile l p)
  unfolding percentile
  percentile-keeps P l p n h = keeps l.samples n h
    where
      keeps : (ss : List ℤ) → ss ≢ [] → All P ss → P (percentile (record l { samples = ss }) p)
      keeps [] n h = absurd (n refl)
      keeps (s ∷ ss) n h = percentile_of-keeps P s ss p h

  -- With at least one sample, a percentile lies between the least and the greatest sample.
  pub percentile_bounds :
      (l : LatencyTracker) (p : F)
      → l.samples ≢ []
      → (min l.samples ≤ℤ percentile l p) × (percentile l p ≤ℤ max l.samples)
  percentile_bounds l p n =
      percentile-keeps (λ s. (min l.samples ≤ℤ s) × (s ≤ℤ max l.samples)) l p n
        (All-both (min l.samples) (max l.samples) l.samples (min-max_bounds l.samples).0
          (min-max_bounds l.samples).1)
