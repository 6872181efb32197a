-- ===== src/Models.antt =====
-- mirador-rca-main/internal/models, and the signal types of internal/repo/mirador_core.go.
-- A `time.Time` is its number of nanoseconds since the zero time.
use nrt_aggragator.Prelude.{Bool, String, List}
use nrt_aggragator.Prelude.Int.{ℤ, pos, negsuc, leb_ℤ}
use mathlib.Core.Bool.{◌&&◌}

abbrev pub Time : Type 0
Time = ℤ

-- t.IsZero()
abbrev pub is_zero : Time → Bool
is_zero t = leb_ℤ t (pos 0) && leb_ℤ (pos 0) t

-- 500 * time.Millisecond, forth and back
abbrev pub half_second : ℤ
half_second = pos 500_000_000

abbrev pub minus_half_second : ℤ
minus_half_second = negsuc 499_999_999

abbrev pub DataType : Type 0
DataType = String

abbrev pub data_type_metrics : DataType
data_type_metrics = "metrics"

abbrev pub data_type_logs : DataType
data_type_logs = "logs"

abbrev pub data_type_traces : DataType
data_type_traces = "traces"

abbrev pub Severity : Type 0
Severity = String

abbrev pub severity_low : Severity
severity_low = "low"

abbrev pub severity_medium : Severity
severity_medium = "medium"

abbrev pub severity_high : Severity
severity_high = "high"

abbrev pub severity_critical : Severity
severity_critical = "critical"

pub record RedAnchor {ℓ} (F : Type ℓ) : Type ℓ where
  pub service : String
  pub selector : String
  pub data_type : DataType
  pub timestamp : Time
  pub anomaly_score : F
  pub threshold : F

pub record TimelineEvent {ℓ} (F : Type ℓ) : Type ℓ where
  pub time : Time
  pub event : String
  pub service : String
  pub severity : Severity
  pub anomaly_score : F
  pub data_source : DataType

pub record CorrelationResult {ℓ} (F : Type ℓ) : Type ℓ where
  pub correlation_id : String
  pub incident_id : String
  pub root_cause : String
  pub confidence : F
  pub affected_services : List String
  pub red_anchors : List (RedAnchor F)
  pub timeline : List (TimelineEvent F)
  pub recommendations : List String
  pub created_at : Time

pub record AnchorTemplate {ℓ} (F : Type ℓ) : Type ℓ where
  pub service : String
  pub signal_type : String
  pub selector : String
  pub typical_lag : F
  pub threshold : F

pub record FailurePattern {ℓ} (F : Type ℓ) : Type ℓ where
  pub id : String
  pub name : String
  pub description : String
  pub services : List String
  pub anchor_templates : List (AnchorTemplate F)
  pub prevalence : F
  pub last_seen : Time
  pub precision : F
  pub recall : F

pub record TimeRange : Type 0 where
  pub start : Time
  pub end : Time

pub record InvestigationRequest {ℓ} (F : Type ℓ) : Type ℓ where
  pub incident_id : String
  pub symptoms : List String
  pub time_range : TimeRange
  pub affected_services : List String
  pub anomaly_threshold : F
  pub tenant_id : String

pub record MetricPoint {ℓ} (F : Type ℓ) : Type ℓ where
  pub timestamp : Time
  pub value : F

pub record LogEntry : Type 0 where
  pub timestamp : Time
  pub message : String
  pub severity : String
  pub count : ℤ

pub record TraceSpan : Type 0 where
  pub trace_id : String
  pub span_id : String
  pub service : String
  pub operation : String
  pub duration : ℤ
  pub status : String
  pub timestamp : Time

pub record ServiceGraphEdge {ℓ} (F : Type ℓ) : Type ℓ where
  pub source : String
  pub target : String
  pub call_rate : F
  pub error_rate : F
