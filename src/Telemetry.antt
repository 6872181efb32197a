-- ===== src/Telemetry.antt =====
-- mirador-nrt-aggregator-main/internal/model/model.go: what flows through the channels of the
-- aggregator, and the parts of the decoded OTLP messages that its processors read and write.
use nrt_aggragator.Prelude.{ℕ, Bool, List, [], ◌∷◌, String, if◌then◌else◌, Option}
use nrt_aggragator.Prelude.Int.{ℤ}
use nrt_aggragator.Prelude.Text.{is_empty}
use nrt_aggragator.Prelude.Dict.{Dict, put}

abbrev pub Bytes : Type 0
Bytes = List ℕ

pub record Envelope : Type 0 where
  pub kind : String
  pub bytes : Bytes
  pub attrs : Dict String
  pub ts_unix : ℤ

abbrev pub kind_metrics : String
kind_metrics = "metrics"

abbrev pub kind_traces : String
kind_traces = "traces"

abbrev pub kind_prom_rw : String
kind_prom_rw = "prom_rw"

abbrev pub kind_json_logs : String
kind_json_logs = "json_logs"

pub record Aggregate {ℓ} (F : Type ℓ) : Type ℓ where
  pub service : String
  pub window_start : ℤ
  pub window_end : ℤ
  pub labels : Dict String
  pub locator : String
  pub count : ℕ
  pub rps : F
  pub error_rate : F
  pub p50 : F
  pub p95 : F
  pub p99 : F
  pub anomaly_score : F
  pub summary_text : String
  pub vector : List F

-- The dynamic types that the processors tell apart; `other` is any other value, known by a number.
pub data Item {ℓ} (F : Type ℓ) : Type ℓ where
  envelope : Envelope → Item F
  aggregate : Aggregate F → Item F
  other : ℕ → Item F

-- An OTLP attribute: its key, and what `GetStringValue` reads of its value.
pub record KeyValue : Type 0 where
  pub key : String
  pub value : String

unfoldable attrs_into : Dict String → List KeyValue → Dict String
attrs_into out [] = out
attrs_into out (a ∷ rest) =
    attrs_into (if is_empty a.value then out else put out a.key a.value) rest

-- The attributes as a map; those that are not texts, or are empty, are left out.
unfoldable pub attrs_to_map : List KeyValue → Dict String
unfolding attrs_into
attrs_to_map = attrs_into []

pub record NumberDataPoint {ℓ} (F : Type ℓ) : Type ℓ where
  pub time : ℕ
  pub start_time : ℕ
  pub attributes : List KeyValue
  -- `AsInt` as the float it is converted to, or `AsDouble`
  pub value : F

pub record HistogramDataPoint {ℓ} (F : Type ℓ) : Type ℓ where
  pub time : ℕ
  pub start_time : ℕ
  pub attributes : List KeyValue
  pub explicit_bounds : List F
  pub bucket_counts : List ℕ
  pub count : ℕ
  pub sum : F

-- `delta` is whether the aggregation temporality is DELTA.
pub data MetricData {ℓ} (F : Type ℓ) : Type ℓ where
  sum_data : (delta : Bool) → List (NumberDataPoint F) → MetricData F
  histogram_data : (delta : Bool) → List (HistogramDataPoint F) → MetricData F
  other_data : MetricData F

pub record Metric {ℓ} (F : Type ℓ) : Type ℓ where
  pub name : String
  pub description : String
  pub measure : String
  pub data_of : MetricData F

-- The metrics of each scope, with the attributes of the resource, if there is one.
pub record ResourceMetrics {ℓ} (F : Type ℓ) : Type ℓ where
  pub resource : Option (List KeyValue)
  pub scope_metrics : List (List (Metric F))
