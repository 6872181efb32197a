-- ===== src/Service.antt =====
-- mirador-rca-main/internal/services/rca_service.go: the handlers of the RCA service, and the
-- metrics of mirador-rca-main/internal/metrics/metrics.go that they report. The repository is an
-- interface of the source, and so is it here. The tracker is there, since `NewRCAService` makes it.
-- How long a call takes, the clock and what the pipeline reads from outside are arguments.
pub mod Latencies
pub mod Percentile
use Prim.Native.String.{◌++◌ as join}
use nrt_aggragator.Prelude.{
  ℕ, suc, Bool, true, List, [], ◌∷◌, ◌++◌, String, if◌then◌else◌, Option, none, some,
}
use nrt_aggragator.Prelude.Int.{ℤ, pos, ltb_ℤ}
use nrt_aggragator.Prelude.Text.{Strings}
use nrt_aggragator.Prelude.Float.{Float}
use nrt_aggragator.Prelude.Result.{Result, ok, err}
use nrt_aggragator.Models.{Time, FailurePattern, CorrelationResult}
use nrt_aggragator.Repo.{Feedback}
use nrt_aggragator.Repo.Queries.{ListCorrelationsRequest, ListCorrelationsResponse}
use nrt_aggragator.Latency.{LatencyTracker, new_latency_tracker, observe, percentile}
use nrt_aggragator.Engine.{Pipeline, Surroundings, investigate}
use nrt_aggragator.Api.{
  Timestamps, ProtoInvestigationRequest, ProtoCorrelationResult, ProtoListRequest,
  ProtoListResponse, PatternsRequest, ProtoPattern, FeedbackRequest,
  from_proto_investigation_request, to_proto_correlation_result,
  from_proto_list_correlations_request, to_proto_list_correlations_response,
  to_proto_patterns_response, from_proto_feedback_request,
}

-- the codes of gRPC that the handlers use
pub data Code : Type 0 where
  invalid_argument failed_precondition internal : Code

pub data Response {ℓ} (A : Type ℓ) : Type ℓ where
  reply : A → Response A
  status : Code → String → Response A

pub record CorrelationPatternRepo {ℓ} (F W : Type ℓ) : Type ℓ where
  pub list_correlations : ListCorrelationsRequest → W → Result (ListCorrelationsResponse F) × W
  pub fetch_patterns : String → String → W → Result (List (FailurePattern F)) × W
  -- the text of the error, if there is one
  pub store_feedback : Feedback → W → Option String × W

pub record RcaService {ℓ} (F W : Type ℓ) : Type ℓ where
  pub pipeline : Option (Pipeline F)
  pub history_repo : Option (CorrelationPatternRepo F W)
  pub latencies : LatencyTracker

unfoldable pub new_rca_service {ℓ} :
    {F W : Type ℓ} → Option (Pipeline F) → Option (CorrelationPatternRepo F W) → RcaService F W
unfolding new_latency_tracker
new_rca_service pipeline history_repo = record {
  pipeline = pipeline;
  history_repo = history_repo;
  latencies = new_latency_tracker (pos 1024);
}

pub data Outcome : Type 0 where
  outcome_success outcome_error : Outcome

-- the counters of investigations, by their label, and what the histogram observed, the last first
pub record Metrics : Type 0 where
  pub successes : ℕ
  pub errors : ℕ
  pub durations : List ℤ

unfoldable pub observe_investigation : Metrics → ℤ → Outcome → Metrics
observe_investigation m d outcome =
    let durations = (if ltb_ℤ d (pos 0) then pos 0 else d) ∷ m.durations in
    elim outcome [
      | outcome_success ↦ record m { successes = suc m.successes; durations = durations }
      | outcome_error ↦ record m { errors = suc m.errors; durations = durations }
    ]

-- what an investigation comes to: the response, the service and the metrics after it, and the calls
-- of `StoreCorrelation`
pub record Investigated {ℓ} (F W P : Type ℓ) : Type ℓ where
  pub response : Response (ProtoCorrelationResult F P)
  pub service : RcaService F W
  pub metrics : Metrics
  pub stored : List (String × CorrelationResult F)

module _ {ℓ} {F W P : Type ℓ} ⦃p : Timestamps P⦄ where
  abbrev refuse : RcaService F W → Metrics → Code → String → Investigated F W P
  refuse svc m code message = record {
    response = status code message;
    service = svc;
    metrics = m;
    stored = [];
  }

  unfoldable pub after_investigation :
      RcaService F W
      → Metrics
      → ℤ
      → Result (CorrelationResult F) × List (String × CorrelationResult F)
      → Investigated F W P
  unfolding observe observe_investigation to_proto_correlation_result
  after_investigation svc m duration (err e, stored) = record {
    response = status internal (join "investigation failed: " e);
    service = svc;
    metrics = observe_investigation m duration outcome_error;
    stored = stored;
  }
  after_investigation svc m duration (ok result, stored) = record {
    response = reply (to_proto_correlation_result result);
    service = record svc { latencies = observe svc.latencies duration };
    metrics = observe_investigation m duration outcome_success;
    stored = stored;
  }

  unfoldable list_correlations :
      RcaService F W → Option (ProtoListRequest P) → W → Response (ProtoListResponse F P) × W
  unfolding from_proto_list_correlations_request to_proto_list_correlations_response
  list_correlations svc none w = (status invalid_argument "request cannot be nil", w)
  list_correlations svc (some req) w = elim svc.history_repo [
    | none ↦ (status failed_precondition "history repository not configured", w)
    | some repo ↦ elim (from_proto_list_correlations_request (some req)) [
      | err e ↦ (status invalid_argument e, w)
      | ok domain ↦
          let answer = repo.list_correlations domain w in
          (
            elim answer.0 [
              | err e ↦ status internal "failed to list correlations"
              | ok resp ↦ reply (to_proto_list_correlations_response resp)
            ],
            answer.1,
          )
    ]
  ]

  unfoldable get_patterns :
      RcaService F W → Option PatternsRequest → W → Response (List (ProtoPattern F P)) × W
  unfolding to_proto_patterns_response
  get_patterns svc none w = (status invalid_argument "request cannot be nil", w)
  get_patterns svc (some req) w = elim svc.history_repo [
    | none ↦ (status failed_precondition "pattern repository not configured", w)
    | some repo ↦
        let answer = repo.fetch_patterns req.tenant_id req.service w in
        (
          elim answer.0 [
            | err e ↦ status internal "failed to fetch patterns"
            | ok patterns ↦ reply (to_proto_patterns_response patterns)
          ],
          answer.1,
        )
  ]

abbrev health_check : Response String
health_check = reply "SERVING"

module _ {ℓ} {F W : Type ℓ} where
  -- the acknowledgement: the correlation's id, and whether it was accepted
  unfoldable submit_feedback :
      RcaService F W → Time → Option FeedbackRequest → W → Response (String × Bool) × W
  unfolding from_proto_feedback_request
  submit_feedback svc now none w = (status invalid_argument "request cannot be nil", w)
  submit_feedback svc now (some req) w = elim svc.history_repo [
    | none ↦ (status failed_precondition "feedback repository not configured", w)
    | some repo ↦ elim (from_proto_feedback_request now (some req)) [
      | err e ↦ (status invalid_argument e, w)
      | ok feedback ↦
          let answer = repo.store_feedback feedback w in
          (
            elim answer.0 [
              | some e ↦ status internal "failed to persist feedback"
              | none ↦ reply (feedback.correlation_id, true)
            ],
            answer.1,
          )
    ]
  ]

module _ {ℓ} {F W P : Type ℓ} ⦃f : Float F⦄ ⦃s : Strings⦄ ⦃p : Timestamps P⦄ where
  unfoldable pub investigate_incident :
      RcaService F W
      → Metrics
      → Surroundings
      → ℤ
      → Option (ProtoInvestigationRequest F P)
      → Investigated F W P
  unfolding from_proto_investigation_request after_investigation
  investigate_incident svc m env duration none =
      refuse svc m invalid_argument "request cannot be nil"
  investigate_incident svc m env duration (some req) = elim svc.pipeline [
    | none ↦ refuse svc m failed_precondition "pipeline not configured"
    | some pipeline ↦ elim (from_proto_investigation_request (some req)) [
      | err e ↦ refuse svc m invalid_argument e
      | ok domain ↦ after_investigation svc m duration (investigate pipeline env domain)
    ]
  ]

module _ {ℓ} {F W : Type ℓ} ⦃f : Float F⦄ where
  unfoldable pub latency_p95 : RcaService F W → ℤ
  unfolding percentile
  latency_p95 svc = percentile svc.latencies (f.decimal 95 0)
