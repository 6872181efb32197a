-- ===== src/Api.antt =====
-- mirador-rca-main/internal/api/handlers.go: the messages of mirador-rca-main/internal/grpc/proto
-- to the domain's records and back. A message is a record, one that may be nil an option; a
-- timestamp of protobuf is a parameter with its two conversions.
use nrt_aggragator.Prelude.{Bool, List, map, String, if◌then◌else◌, Option, none, some, ◌||◌}
use nrt_aggragator.Prelude.Int.{ℤ, pos}
use nrt_aggragator.Prelude.Text.{is_empty}
use nrt_aggragator.Prelude.Result.{Result, ok, err}
use text.Mathlib.Text.{◌==◌ as str_eq}
use nrt_aggragator.Models.{
  Time, is_zero, DataType, data_type_metrics, data_type_logs, data_type_traces, Severity,
  severity_low, severity_medium, severity_high, severity_critical, RedAnchor, TimelineEvent,
  CorrelationResult, AnchorTemplate, FailurePattern, InvestigationRequest,
}
use nrt_aggragator.Repo.{Feedback}
use nrt_aggragator.Repo.Queries.{ListCorrelationsRequest, ListCorrelationsResponse}

-- `timestamppb.New` and `AsTime`
pub record Timestamps {ℓ} (P : Type ℓ) : Type ℓ where
  pub new : Time → P
  pub as_time : P → Time

pub data ProtoDataType : Type 0 where
  data_type_unspecified proto_metrics proto_logs proto_traces : ProtoDataType

pub data ProtoSeverity : Type 0 where
  severity_unspecified proto_low proto_medium proto_high proto_critical : ProtoSeverity

pub record ProtoTimeRange {ℓ} (P : Type ℓ) : Type ℓ where
  pub start : Option P
  pub end : Option P

pub record ProtoInvestigationRequest {ℓ} (F P : Type ℓ) : Type ℓ where
  pub incident_id : String
  pub symptoms : List String
  pub time_range : Option (ProtoTimeRange P)
  pub affected_services : List String
  pub anomaly_threshold : F
  pub tenant_id : String

pub record ProtoRedAnchor {ℓ} (F P : Type ℓ) : Type ℓ where
  pub service : String
  pub selector : String
  pub data_type : ProtoDataType
  pub timestamp : P
  pub anomaly_score : F
  pub threshold : F

pub record ProtoTimelineEvent {ℓ} (F P : Type ℓ) : Type ℓ where
  pub time : P
  pub event : String
  pub service : String
  pub severity : ProtoSeverity
  pub anomaly_score : F
  pub data_source : ProtoDataType

pub record ProtoCorrelationResult {ℓ} (F P : Type ℓ) : Type ℓ where
  pub correlation_id : String
  pub incident_id : String
  pub root_cause : String
  pub confidence : F
  pub affected_services : List String
  pub red_anchors : List (ProtoRedAnchor F P)
  pub timeline : List (ProtoTimelineEvent F P)
  pub recommendations : List String
  pub created_at : P

pub record ProtoListRequest {ℓ} (P : Type ℓ) : Type ℓ where
  pub tenant_id : String
  pub service : String
  pub start_time : Option P
  pub end_time : Option P
  pub page_size : ℤ
  pub page_token : String

pub record ProtoListResponse {ℓ} (F P : Type ℓ) : Type ℓ where
  pub correlations : List (ProtoCorrelationResult F P)
  pub next_page_token : String

pub record PatternsRequest : Type 0 where
  pub tenant_id : String
  pub service : String

pub record ProtoAnchorTemplate {ℓ} (F : Type ℓ) : Type ℓ where
  pub service : String
  pub signal_type : String
  pub selector : String
  pub typical_lead_lag : F
  pub threshold : F

pub record ProtoQuality {ℓ} (F : Type ℓ) : Type ℓ where
  pub precision : F
  pub recall : F

pub record ProtoPattern {ℓ} (F P : Type ℓ) : Type ℓ where
  pub id : String
  pub name : String
  pub description : String
  pub services : List String
  pub anchor_templates : List (ProtoAnchorTemplate F)
  pub prevalence : F
  pub last_seen : Option P
  pub quality : ProtoQuality F

pub record FeedbackRequest : Type 0 where
  pub tenant_id : String
  pub correlation_id : String
  pub correct : Bool
  pub notes : String

unfoldable to_proto_data_type : DataType → ProtoDataType
to_proto_data_type d =
    if str_eq d data_type_metrics
    then proto_metrics
    else if str_eq d data_type_logs
    then proto_logs
    else if str_eq d data_type_traces
    then proto_traces
    else data_type_unspecified

unfoldable to_proto_severity : Severity → ProtoSeverity
to_proto_severity v =
    if str_eq v severity_low
    then proto_low
    else if str_eq v severity_medium
    then proto_medium
    else if str_eq v severity_high
    then proto_high
    else if str_eq v severity_critical
    then proto_critical
    else severity_unspecified

unfoldable pub from_proto_feedback_request : Time → Option FeedbackRequest → Result Feedback
from_proto_feedback_request now none = err "request is nil"
from_proto_feedback_request now (some req) =
    if is_empty req.correlation_id
    then err "correlation_id is required"
    else ok (record {
      tenant_id = req.tenant_id;
      correlation_id = req.correlation_id;
      correct = req.correct;
      notes = req.notes;
      submitted_at = now;
    })

module _ {ℓ} {F : Type ℓ} where
  unfoldable to_proto_template : AnchorTemplate F → ProtoAnchorTemplate F
  to_proto_template a = record {
    service = a.service;
    signal_type = a.signal_type;
    selector = a.selector;
    typical_lead_lag = a.typical_lag;
    threshold = a.threshold;
  }

module _ {ℓ} {P : Type ℓ} ⦃p : Timestamps P⦄ where
  -- both ends of a time range that are there
  abbrev ends_of : ProtoTimeRange P → Option (P × P)
  ends_of r = elim r.start [
    | none ↦ none
    | some a ↦ elim r.end [ none ↦ none | some b ↦ some (a, b) ]
  ]

  abbrev range_of : Option (ProtoTimeRange P) → Option (P × P)
  range_of none = none
  range_of (some r) = ends_of r

  -- a time that is left out is the zero time
  abbrev time_or_zero : Option P → Time
  time_or_zero none = pos 0
  time_or_zero (some t) = p.as_time t

  unfoldable pub from_proto_list_correlations_request :
      Option (ProtoListRequest P) → Result ListCorrelationsRequest
  from_proto_list_correlations_request none = err "request is nil"
  from_proto_list_correlations_request (some req) = ok (record {
    tenant_id = req.tenant_id;
    service = req.service;
    start = time_or_zero req.start_time;
    end_time = time_or_zero req.end_time;
    page_size = req.page_size;
    page_token = req.page_token;
  })

module _ {ℓ} {F P : Type ℓ} ⦃p : Timestamps P⦄ where
  abbrev within : ProtoInvestigationRequest F P → P × P → Result (InvestigationRequest F)
  within req ends =
      if is_zero (p.as_time ends.0) || is_zero (p.as_time ends.1)
      then err "time_range values must be set"
      else ok (record {
        incident_id = req.incident_id;
        symptoms = req.symptoms;
        time_range = record { start = p.as_time ends.0; end = p.as_time ends.1 };
        affected_services = req.affected_services;
        anomaly_threshold = req.anomaly_threshold;
        tenant_id = req.tenant_id;
      })

  unfoldable pub from_proto_investigation_request :
      Option (ProtoInvestigationRequest F P) → Result (InvestigationRequest F)
  from_proto_investigation_request none = err "request is nil"
  from_proto_investigation_request (some req) = elim (range_of req.time_range) [
    | none ↦ err "time_range.start and time_range.end are required"
    | some ends ↦ within req ends
  ]

  unfoldable to_proto_anchor : RedAnchor F → ProtoRedAnchor F P
  unfolding to_proto_data_type
  to_proto_anchor a = record {
    service = a.service;
    selector = a.selector;
    data_type = to_proto_data_type a.data_type;
    timestamp = p.new a.timestamp;
    anomaly_score = a.anomaly_score;
    threshold = a.threshold;
  }

  unfoldable to_proto_event : TimelineEvent F → ProtoTimelineEvent F P
  unfolding to_proto_data_type to_proto_severity
  to_proto_event e = record {
    time = p.new e.time;
    event = e.event;
    service = e.service;
    severity = to_proto_severity e.severity;
    anomaly_score = e.anomaly_score;
    data_source = to_proto_data_type e.data_source;
  }

  unfoldable pub to_proto_correlation_result : CorrelationResult F → ProtoCorrelationResult F P
  unfolding to_proto_anchor to_proto_event
  to_proto_correlation_result res = record {
    correlation_id = res.correlation_id;
    incident_id = res.incident_id;
    root_cause = res.root_cause;
    confidence = res.confidence;
    affected_services = res.affected_services;
    red_anchors = map to_proto_anchor res.red_anchors;
    timeline = map to_proto_event res.timeline;
    recommendations = res.recommendations;
    created_at = p.new res.created_at;
  }

  unfoldable pub to_proto_list_correlations_response :
      ListCorrelationsResponse F → ProtoListResponse F P
  unfolding to_proto_correlation_result
  to_proto_list_correlations_response resp = record {
    correlations = map to_proto_correlation_result resp.correlations;
    next_page_token = resp.next_page_token;
  }

  unfoldable to_proto_pattern : FailurePattern F → ProtoPattern F P
  unfolding to_proto_template
  to_proto_pattern x = record {
    id = x.id;
    name = x.name;
    description = x.description;
    services = x.services;
    anchor_templates = map to_proto_template x.anchor_templates;
    prevalence = x.prevalence;
    last_seen = if is_zero x.last_seen then none else some (p.new x.last_seen);
    quality = record { precision = x.precision; recall = x.recall };
  }

  unfoldable pub to_proto_patterns_response : List (FailurePattern F) → List (ProtoPattern F P)
  unfolding to_proto_pattern
  to_proto_patterns_response patterns = map to_proto_pattern patterns
