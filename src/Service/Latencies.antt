-- ===== src/Service/Latencies.antt =====
-- What the tracker and the metrics hold after a sequence of investigations.
use nrt_aggragator.Prelude.{
  ℕ, suc, ◌-◌, ◌+◌, ◌≡◌, ◌∙◌, refl, ap, List, [], ◌∷◌, Option, none, some, length, drop, arith,
}
use nrt_aggragator.Prelude.Int.{ℤ, pos}
use nrt_aggragator.Prelude.Text.{Strings}
use nrt_aggragator.Prelude.Float.{Float}
use nrt_aggragator.Latency.{LatencyTracker, observe}
use nrt_aggragator.Latency.Window.{observe_all, samples-observe_all}
use nrt_aggragator.Engine.{Pipeline, Surroundings}
use nrt_aggragator.Api.{Timestamps, ProtoInvestigationRequest, ProtoCorrelationResult}
use nrt_aggragator.Service.{
  invalid_argument, failed_precondition, internal, Response, reply, status, CorrelationPatternRepo,
  RcaService, new_rca_service, Metrics, outcome_success, outcome_error, observe_investigation,
  after_investigation, investigate_incident,
}

pub record Call {ℓ} (F P : Type ℓ) : Type ℓ where
  pub env : Surroundings
  pub duration : ℤ
  pub request : Option (ProtoInvestigationRequest F P)

module _ {ℓ} {A : Type ℓ} where
  -- what a response says that the tracker observed
  abbrev observed : Response A → ℤ → LatencyTracker → LatencyTracker
  observed (reply a) d l = observe l d
  observed (status code message) d l = l

  -- what it says that the metrics observed
  abbrev measured : Response A → ℤ → Metrics → Metrics
  measured (reply a) d m = observe_investigation m d outcome_success
  measured (status internal message) d m = observe_investigation m d outcome_error
  measured (status _ message) d m = m

module _ {ℓ} {F P : Type ℓ} where
  -- the durations of the calls that were answered
  abbrev pub answered : List (Call F P) → List (Response (ProtoCorrelationResult F P)) → List ℤ
  answered (c ∷ cs) (reply a ∷ rs) = c.duration ∷ answered cs rs
  answered (c ∷ cs) (status code message ∷ rs) = answered cs rs
  answered _ _ = []

  -- the number of calls whose investigation failed
  abbrev pub failed : List (Response (ProtoCorrelationResult F P)) → ℕ
  failed [] = 0
  failed (status internal message ∷ rs) = suc (failed rs)
  failed (_ ∷ rs) = failed rs

module _ {ℓ} {F P : Type ℓ} where
  observe_all-observed :
      (r : Response (ProtoCorrelationResult F P))
      (rs : List (Response (ProtoCorrelationResult F P))) (c : Call F P) (cs : List (Call F P))
      (l : LatencyTracker)
      → observe_all (observed r c.duration l) (answered cs rs)
        ≡ observe_all l (answered (c ∷ cs) (r ∷ rs))
  observe_all-observed (reply a) rs c cs l = refl
  observe_all-observed (status code message) rs c cs l = refl

  metered :
      (r : Response (ProtoCorrelationResult F P)) (d : ℤ) (m : Metrics)
      (rs : List (Response (ProtoCorrelationResult F P))) (c : Call F P) (cs : List (Call F P))
      → ((measured r d m).successes + length (answered cs rs)
          ≡ m.successes + length (answered (c ∷ cs) (r ∷ rs)))
        × ((measured r d m).errors + failed rs ≡ m.errors + failed (r ∷ rs))
  unfolding observe_investigation
  metered (reply a) d m rs c cs = (omega arith, refl)
  metered (status internal e) d m rs c cs = (refl, omega arith)
  metered (status invalid_argument e) d m rs c cs = (refl, refl)
  metered (status failed_precondition e) d m rs c cs = (refl, refl)

-- the responses to a sequence of calls, and the service and the metrics after it
pub record Served {ℓ} (F W P : Type ℓ) : Type ℓ where
  pub responses : List (Response (ProtoCorrelationResult F P))
  pub service : RcaService F W
  pub metrics : Metrics

module _ {ℓ} {F W P : Type ℓ} ⦃f : Float F⦄ ⦃s : Strings⦄ ⦃p : Timestamps P⦄ where
  abbrev pub serve : RcaService F W → Metrics → List (Call F P) → Served F W P
  serve svc m [] = record { responses = []; service = svc; metrics = m }
  serve svc m (c ∷ cs) =
      let one = investigate_incident svc m c.env c.duration c.request in
      let rest = serve one.service one.metrics cs in
      record rest { responses = one.response ∷ rest.responses }

  -- The response to a call says what is observed of it.
  investigate_incident-observed :
      (svc : RcaService F W) (m : Metrics) (env : Surroundings) (d : ℤ)
      (req : Option (ProtoInvestigationRequest F P))
      → (let one = investigate_incident svc m env d req in
          (one.service.latencies ≡ observed one.response d svc.latencies)
          × (one.metrics ≡ measured one.response d m))
  unfolding investigate_incident after_investigation
  investigate_incident-observed svc m env d none = (refl, refl)
  investigate_incident-observed svc m env d (some req) = (ground arith, ground arith)

  latencies-serve :
      (svc : RcaService F W) (m : Metrics) (cs : List (Call F P))
      → (let after = serve svc m cs in
          after.service.latencies ≡ observe_all svc.latencies (answered cs after.responses))
  latencies-serve svc m [] = refl
  latencies-serve svc m (c ∷ cs) =
      let one = investigate_incident svc m c.env c.duration c.request in
      let after = serve one.service one.metrics cs in
      rw (
        latencies-serve one.service one.metrics cs,
        (investigate_incident-observed svc m c.env c.duration c.request).0,
        observe_all-observed one.response after.responses c cs svc.latencies,
      )

  -- the numbers of calls, by what the metrics observe of them
  IsMetered : Metrics → List (Call F P) → Served F W P → Type 0
  IsMetered m cs after =
      (after.metrics.successes ≡ m.successes + length (answered cs after.responses))
      × (after.metrics.errors ≡ m.errors + failed after.responses)

  metrics-serve :
      (svc : RcaService F W) (m : Metrics) (cs : List (Call F P)) → IsMetered m cs (serve svc m cs)
  unfolding IsMetered
  metrics-serve svc m [] = (omega arith, omega arith)
  metrics-serve svc m (c ∷ cs) =
      let one = investigate_incident svc m c.env c.duration c.request in
      let after = serve one.service one.metrics cs in
      let rest = metrics-serve one.service one.metrics cs in
      let here = metered one.response c.duration m after.responses c cs in
      let e = (investigate_incident-observed svc m c.env c.duration c.request).1 in
      (
        omega (arith, rest.0, here.0, ap (λ (x : Metrics). x.successes) e),
        omega (arith, rest.1, here.1, ap (λ (x : Metrics). x.errors) e),
      )

  -- After any investigations since it was made, the tracker of a service holds the durations of the
  -- last 1024 that were answered, in their order, and nothing of the others; the counters have grown
  -- by the number of those answered and of those whose pipeline failed.
  pub serve_exact :
      (pipeline : Option (Pipeline F)) (history_repo : Option (CorrelationPatternRepo F W))
      (m : Metrics) (cs : List (Call F P))
      → (let after = serve (new_rca_service pipeline history_repo) m cs in
          let done = answered cs after.responses in
          (after.service.latencies.samples ≡ drop (length done - 1024) done)
          × (after.metrics.successes ≡ m.successes + length done)
          × (after.metrics.errors ≡ m.errors + failed after.responses))
  unfolding new_rca_service IsMetered
  serve_exact pipeline history_repo m cs =
      let svc = new_rca_service pipeline history_repo in
      (
        ap (λ (l : LatencyTracker). l.samples) (latencies-serve svc m cs)
            ∙ samples-observe_all (pos 1024) (answered cs (serve svc m cs).responses),
        (metrics-serve svc m cs).0,
        (metrics-serve svc m cs).1,
      )
