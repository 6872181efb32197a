-- ===== src/Service/Percentile.antt =====
-- The 95th percentile that the service reports.
use mathlib.Core.Path.{subst}
use nrt_aggragator.Prelude.{
  ℕ, ◌-◌, ◌≤◌, ◌<◌, ◌≡◌, ◌≢◌, refl, false, List, [], ◌∷◌, Option, length, length-drop, drop, arith,
}
use nrt_aggragator.Prelude.Int.{ℤ, pos}
use nrt_aggragator.Prelude.Text.{Strings}
use nrt_aggragator.Prelude.Float.{Float, of_ℕ}
use nrt_aggragator.Latency.{percentile}
use nrt_aggragator.Latency.Rank.{IsRank, percentile-IsRank}
use nrt_aggragator.Engine.{Pipeline}
use nrt_aggragator.Api.{Timestamps}
use nrt_aggragator.Service.{CorrelationPatternRepo, new_rca_service, Metrics, latency_p95}
use nrt_aggragator.Service.Latencies.{Call, answered, serve, serve_exact}

-- The last 1024 of some entries are some.
length-last_pos : (xs : List ℤ) → xs ≢ [] → 0 < length (drop (length xs - 1024) xs)
length-last_pos [] n = absurd (n refl)
length-last_pos (x ∷ xs) n = omega (arith, length-drop (length (x ∷ xs) - 1024) (x ∷ xs))

-- 95 lies strictly between 0 and 100, and 95 / 100 of an integer that is not negative is truncated
-- to one between 0 and it.
pub record Takes95 {ℓ} (F : Type ℓ) ⦃f : Float F⦄ : Type 0 where
  pub above : f.le (f.decimal 95 0) (f.decimal 0 0) ≡ false
  pub below : f.le (f.decimal 100 0) (f.decimal 95 0) ≡ false
  pub truncated :
      (k : ℕ)
      → (i : ℕ) × (f.to_int (f.mul (f.div (f.decimal 95 0) (f.decimal 100 0)) (of_ℕ k)) ≡ pos i)
        × (i ≤ k)

module _ {ℓ} (F : Type ℓ) ⦃f : Float F⦄ where
  -- the one of n durations that has as many of them below it, in their order, as 95 / 100 of n - 1,
  -- truncated
  abbrev pub IsP95 : List ℤ → ℤ → Type 0
  IsP95 window v =
      (i : ℕ) × (f.to_int
          (f.mul (f.div (f.decimal 95 0) (f.decimal 100 0)) (of_ℕ (length window - 1)))
        ≡ pos i)
      × IsRank i window v

module _ {ℓ} {F W P : Type ℓ} ⦃f : Float F⦄ ⦃s : Strings⦄ ⦃p : Timestamps P⦄ where
  -- If the floats take 95 percent as they should, then once an investigation was answered, the 95th
  -- percentile that the service reports is about the last 1024 durations of those that were: with i
  -- for 95 / 100 of one less than their number, truncated, more than i of them are at most it, and
  -- at most i are less.
  pub latency_p95-IsP95 :
      Takes95 F
      → (pipeline : Option (Pipeline F)) (history_repo : Option (CorrelationPatternRepo F W))
        (m : Metrics) (cs : List (Call F P))
      → answered cs (serve (new_rca_service pipeline history_repo) m cs).responses ≢ []
      → (let after = serve (new_rca_service pipeline history_repo) m cs in
          let done = answered cs after.responses in
          IsP95 F (drop (length done - 1024) done) (latency_p95 after.service))
  unfolding latency_p95
  latency_p95-IsP95 law pipeline history_repo m cs n =
      let after = serve (new_rca_service pipeline history_repo) m cs in
      let done = answered cs after.responses in
      let window = drop (length done - 1024) done in
      let e = (serve_exact pipeline history_repo m cs).0 in
      let (i, index, small) = law.truncated (length window - 1) in
      (
        i,
        index,
        subst (λ w. IsRank i w (percentile after.service.latencies (f.decimal 95 0))) e
            (percentile-IsRank after.service.latencies (f.decimal 95 0) i law.above law.below
              (rw e index) (rw e (omega (arith, length-last_pos done n)))),
      )
