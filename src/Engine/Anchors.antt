-- ===== src/Engine/Anchors.antt =====
-- The anchors and the timeline of an investigation: ranked, cut, and made from the anomalies.
use nrt_aggragator.Prelude.{
  ℕ, ◌≡◌, ◌≤◌, refl, sym, ap, true, false, List, String, arith, Bool-cases, inl, inr, ltb, length,
  take, take_all, length-take, All,
}
use nrt_aggragator.Prelude.Int.{ltb_ℤ_asym}
use nrt_aggragator.Prelude.Sort.{sort}
use nrt_aggragator.Prelude.Ranking.{IsTop, take-sort-IsTop, Anything, All-Anything}
use nrt_aggragator.Prelude.Float.{Float, IsOrdered}
use nrt_aggragator.Extractors.{MetricAnomaly, LogAnomaly, TraceAnomaly}
use nrt_aggragator.Models.{RedAnchor, TimelineEvent}
use nrt_aggragator.Engine.Steps.{
  at_most, all_anchors, build_anchors, scores_more, all_events, build_timeline, earlier,
}

at_most-eq-take {ℓ} : {A : Type ℓ} (n : ℕ) (xs : List A) → at_most n xs ≡ take n xs
at_most-eq-take n xs = elim (Bool-cases (ltb n (length xs))) [
  | inl cut ↦ rw cut refl
  | inr whole ↦ rw whole (sym (take_all n xs (ground (arith, whole))))
]

module _ {ℓ} {F : Type ℓ} ⦃f : Float F⦄ where
  -- the score is a number
  abbrev IsScored : RedAnchor F → Type 0
  IsScored a = f.le a.anomaly_score a.anomaly_score ≡ true

  scores_more_trans :
      IsOrdered F
      → (a b c : RedAnchor F) → IsScored a
      → IsScored b
      → IsScored c
      → scores_more b a ≡ false
      → scores_more c b ≡ false
      → scores_more c a ≡ false
  scores_more_trans laws a b c p q r h k = laws.not_lt_of_le c.anomaly_score a.anomaly_score (
      laws.le_trans c.anomaly_score b.anomaly_score a.anomaly_score
        (laws.le_of_not_lt b.anomaly_score c.anomaly_score q r k)
        (laws.le_of_not_lt a.anomaly_score b.anomaly_score p q h))

earlier_trans {ℓ} :
    {F : Type ℓ} ⦃f : Float F⦄ (a b c : TimelineEvent F)
    → earlier b a ≡ false
    → earlier c b ≡ false
    → earlier c a ≡ false
earlier_trans a b c h k = ground arith

module _ {ℓ} {F : Type ℓ} ⦃f : Float F⦄ (ms : List (MetricAnomaly F)) (ls : List (LogAnomaly F))
    (ts : List (TraceAnomaly F)) where
  -- If no anomaly scores NaN and the floats compare as IEEE 754 says, the anchors are five of the
  -- anomalies, or all if they are fewer, each used once; they stand in the order of their scores, the
  -- highest first, and no anomaly that is left out scores higher than an anchor.
  pub build_anchors-IsTop :
      (laws : IsOrdered F) (service : String)
      → All IsScored (all_anchors service ms ls ts)
      → IsTop scores_more 5 (all_anchors service ms ls ts) (build_anchors service ms ls ts)
  unfolding build_anchors
  build_anchors-IsTop laws service numbers =
      let all = all_anchors service ms ls ts in
      rw (at_most-eq-take 5 (sort scores_more all)) (
        take-sort-IsTop scores_more IsScored (scores_more_trans laws) 5 all
          (λ a b h. laws.lt_asym b.anomaly_score a.anomaly_score h) numbers)

  -- There are at most five anchors.
  pub length-build_anchors : (service : String) → length (build_anchors service ms ls ts) ≤ 5
  unfolding build_anchors
  length-build_anchors service =
      let ranked = sort scores_more (all_anchors service ms ls ts) in
      omega (arith, ap length (at_most-eq-take 5 ranked), length-take 5 ranked)

  -- The timeline is ten of the anomalies, or all if they are fewer, in the order of time, and none
  -- that is left out is earlier.
  pub build_timeline-IsTop : IsTop earlier 10 (all_events ms ls ts) (build_timeline ms ls ts)
  unfolding build_timeline
  build_timeline-IsTop =
      let all = all_events ms ls ts in
      rw (at_most-eq-take 10 (sort earlier all)) (
        take-sort-IsTop earlier Anything (λ a b c p q r h k. earlier_trans a b c h k) 10 all
          (λ a b. ltb_ℤ_asym a.time b.time) (All-Anything all))

  -- There are at most ten events in it.
  pub length-build_timeline : length (build_timeline ms ls ts) ≤ 10
  length-build_timeline = omega (arith, build_timeline-IsTop.bounded)
