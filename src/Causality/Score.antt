-- ===== src/Causality/Score.antt =====
-- Bounds of `clamp`, and of the scores that the engine makes with it.
use nrt_aggragator.Prelude.{
  ◌≡◌, true, false, ◌⊎◌, List, [], ◌∷◌, String, Bool-cases, inl, inr, ◌==◌,
}
use nrt_aggragator.Prelude.Text.{Strings, is_empty}
use nrt_aggragator.Prelude.Float.{Float, IsOrdered, nought, unit}
use nrt_aggragator.Models.{TimelineEvent, ServiceGraphEdge}
use nrt_aggragator.Causality.{
  Tally, clamp, empty_tally, weigh_edges, root_time_of, conclude, evaluate,
}

-- `x` is NaN, or in the range from 0 to 1.
abbrev pub IsScore {ℓ} : {F : Type ℓ} ⦃f : Float F⦄ → F → Type 0
IsScore ⦃f⦄ x = (f.le x x ≡ false) ⊎ ((f.le nought x ≡ true) × (f.le x unit ≡ true))

-- It is enough to look at the values that are numbers.
pub IsScore-intro {ℓ} :
    {F : Type ℓ} ⦃f : Float F⦄ (x : F)
    → (f.le x x ≡ true → (f.le nought x ≡ true) × (f.le x unit ≡ true))
    → IsScore x
IsScore-intro ⦃f⦄ x bounds = elim (Bool-cases (f.le x x)) [
  | inl number ↦ inr (bounds number)
  | inr nan ↦ inl nan
]

module _ {ℓ} {F : Type ℓ} ⦃f : Float F⦄ (laws : IsOrdered F) where
  open laws use {le_refl_left, le_refl_right, le_of_not_lt, zero_le_unit}

  -- A clamped value that is a number lies between the limits.
  pub clamp_bounds :
      (v lo hi : F)
      → f.le lo hi ≡ true
      → f.le (clamp v lo hi) (clamp v lo hi) ≡ true
      → (f.le lo (clamp v lo hi) ≡ true) × (f.le (clamp v lo hi) hi ≡ true)
  unfolding clamp
  clamp_bounds v lo hi h = elim (Bool-cases (f.lt v lo)) [
    | inl low ↦ rw low (λ n. (n, h))
    | inr not_low ↦ elim (Bool-cases (f.lt hi v)) [
      | inl high ↦ rw (not_low, high) (λ n. (h, n))
      | inr not_high ↦
          rw (not_low, not_high)
            (λ n. (
              le_of_not_lt v lo n (le_refl_left lo hi h) not_low,
              le_of_not_lt hi v (le_refl_right lo hi h) n not_high,
            ))
    ]
  ]

  pub clamp-IsScore : (v : F) → IsScore (clamp v nought unit)
  clamp-IsScore v = IsScore-intro (clamp v nought unit) (clamp_bounds v nought unit zero_le_unit)

  pub nought-IsScore : IsScore (nought {F = F})
  nought-IsScore = IsScore-intro (nought {F = F}) (λ n. (n, zero_le_unit))

  conclude-IsScore : (t : Tally F) → IsScore (conclude t).score
  unfolding conclude
  conclude-IsScore t = elim (Bool-cases (t.total_upstream == 0)) [
    | inl none_upstream ↦ rw none_upstream nought-IsScore
    | inr some_upstream ↦ rw some_upstream (clamp-IsScore _)
  ]

  module _ ⦃s : Strings⦄ where
    -- Unless it is NaN, the score of an evaluation lies between 0 and 1.
    pub evaluate-IsScore :
        (root : String) (timeline : List (TimelineEvent F)) (edges : List (ServiceGraphEdge F))
        → IsScore (evaluate root timeline edges).score
    unfolding evaluate
    evaluate-IsScore root [] edges = nought-IsScore
    evaluate-IsScore root (e ∷ es) [] = nought-IsScore
    evaluate-IsScore root (e ∷ es) (g ∷ gs) = elim (Bool-cases (is_empty root)) [
      | inl no_root ↦ rw no_root nought-IsScore
      | inr rooted ↦ rw rooted (
          conclude-IsScore
            (weigh_edges root (root_time_of root e es) (e ∷ es) (g ∷ gs) empty_tally))
    ]
