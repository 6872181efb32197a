-- ===== src/IForest/Stream.antt =====
-- What goes through the isolation forest: scores within their bounds, and nothing else changed.
use text.Mathlib.Text.{◌==◌ as str_eq}
use text.Mathlib.TextPositions.{eq_refl}
use nrt_aggragator.Prelude.{
  suc, ◌≡◌, refl, ap, false, List, [], ◌∷◌, String, Option, none, some, arith, Bool-cases, inl, inr,
  length, length-replicate, is_nil,
}
use nrt_aggragator.Prelude.Int.{ℤ}
use nrt_aggragator.Prelude.Dict.{Dict, get, get-put}
use nrt_aggragator.Prelude.Float.{Float, IsOrdered, nought, unit}
use nrt_aggragator.Causality.Score.{IsScore, IsScore-intro, nought-IsScore}
use nrt_aggragator.Telemetry.{Item, envelope, aggregate, other}
use nrt_aggragator.IForest.{
  Forest, Welford, Stats, Processor, new_welford, apply_all, estimators, apply, bounded_score,
  score, step, start,
}

-- The lists have the same length, and what stands at the same place is related.
abbrev pub Pairwise {ℓ κ} : {A : Type ℓ} → (A → A → Type κ) → List A → List A → Type κ
Pairwise R [] [] = Unit
Pairwise R [] (y ∷ ys) = R y y × ⊥
Pairwise R (x ∷ xs) [] = R x x × ⊥
Pairwise R (x ∷ xs) (y ∷ ys) = R x y × Pairwise R xs ys

module _ {ℓ} {F : Type ℓ} ⦃f : Float F⦄ where
  length-apply_all :
      (ws : List (Welford F)) (vec : List F)
      → length ws ≡ length vec
      → (length (apply_all ws vec).0 ≡ length vec) × (length (apply_all ws vec).1 ≡ length vec)
  unfolding apply_all
  length-apply_all [] [] h = (refl, refl)
  length-apply_all [] (v ∷ vec) h = absurd (omega arith)
  length-apply_all (w ∷ ws) [] h = absurd (omega arith)
  length-apply_all (w ∷ ws) (v ∷ vec) h =
      let ih = length-apply_all ws vec (omega arith) in (ap suc ih.0, ap suc ih.1)

  length-estimators :
      (m : Dict (List (Welford F))) (svc : String) (vec : List F)
      → length (estimators m svc vec) ≡ length vec
  unfolding estimators
  length-estimators m svc vec = ground (arith, length-replicate (length vec) (new_welford {F = F}))

  -- Normalising a vector gives one of the same length, leaves the service with one estimator for
  -- each of its features, and leaves the estimators of a service of another name alone.
  pub apply-Isolated :
      (z : Stats F) (svc : String) (ts : ℤ) (vec : List F) (other_svc : String)
      → str_eq other_svc svc ≡ false
      → (length (apply z svc ts vec).1 ≡ length vec)
        × ((ws : List (Welford F)) × (get (apply z svc ts vec).0.data_of svc ≡ some ws)
            × (length ws ≡ length vec))
        × (get (apply z svc ts vec).0.data_of other_svc ≡ get z.data_of other_svc)
  unfolding apply
  apply-Isolated z svc ts vec other_svc apart =
      let ws = estimators z.data_of svc vec in
      let done = apply_all ws vec in
      let sizes = length-apply_all ws vec (length-estimators z.data_of svc vec) in
      (
        sizes.1,
        (done.0, ground (arith, get-put z.data_of svc svc done.0, eq_refl svc), sizes.0),
        ground (arith, get-put z.data_of svc other_svc done.0),
      )

  -- An item as it leaves: an aggregate has a new score within its bounds and is else unchanged, and
  -- so is any other item.
  abbrev pub Rescored : Item F → Item F → Type ℓ
  Rescored (aggregate a) (aggregate b) =
      (b ≡ record a { anomaly_score = b.anomaly_score }) × IsScore b.anomaly_score
  Rescored x y = y ≡ x

  module _ (laws : IsOrdered F) where
    open laws use {le_refl_left, le_refl_right, le_of_not_lt, zero_le_unit}

    bounded_score-IsScore : (v : F) → IsScore (bounded_score v)
    unfolding bounded_score
    bounded_score-IsScore v = IsScore-intro (bounded_score v) (λ n. ground (
      arith,
      zero_le_unit,
      le_refl_left nought unit zero_le_unit,
      le_refl_right nought unit zero_le_unit,
      le_of_not_lt v nought,
      le_of_not_lt unit v,
    ))

    score-IsScore : (forest : Option (Forest F)) (n : F) (x : List F) → IsScore (score forest n x)
    unfolding score
    score-IsScore none n x = nought-IsScore laws
    score-IsScore (some forest) n x = elim (Bool-cases (is_nil forest.trees)) [
      | inl empty ↦ rw empty (nought-IsScore laws)
      | inr trees ↦ rw trees (bounded_score-IsScore _)
    ]

    step-Rescored : (p : Processor F) (item : Item F) → Rescored item (step p item).1
    unfolding step
    step-Rescored p (envelope e) = refl
    step-Rescored p (other n) = refl
    step-Rescored p (aggregate a) = elim (Bool-cases (str_eq p.norm_mode "zscore")) [
      | inl normal ↦ rw normal (refl, score-IsScore p.forest p.subsample_n _)
      | inr plain ↦ rw plain (refl, score-IsScore p.forest p.subsample_n _)
    ]

    -- Every item leaves once and in its order. An aggregate leaves with a score between 0 and 1, or
    -- NaN, and is else unchanged, and so is any other item, if the floats compare as IEEE 754 says.
    pub start-Rescored :
        (p : Processor F) (items : List (Item F)) → Pairwise Rescored items (start p items)
    unfolding start
    start-Rescored p [] = tt
    start-Rescored p (item ∷ items) = (step-Rescored p item, start-Rescored (step p item).0 items)
