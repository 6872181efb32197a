-- ===== src/SpanMetrics.antt =====
-- mirador-nrt-aggregator-main/internal/processors/spanmetrics/spanmetrics.go: spans to metrics.
-- The spans are what the decoding of OTLP gives; decoding and encoding are parameters. A time is a
-- 64-bit number of nanoseconds, and `end - start` wraps around.
pub mod Histogram
pub mod Labels
pub mod Counts
use text.Mathlib.Text.{◌==◌ as str_eq}
use nrt_aggragator.Prelude.{
  ℕ, zero, suc, ◌+◌, ◌-◌, ◌%◌, ◌^◌, Bool, true, false, not, ◌&&◌, ◌||◌, List, [], ◌∷◌, ◌++◌, map,
  String, if◌then◌else◌, Option, none, some, length, replicate, set, ltb, ◌==◌, any, is_nil,
}
use nrt_aggragator.Prelude.Text.{Strings, equal_fold, to_lower, is_empty}
use nrt_aggragator.Prelude.Dict.{Dict, get}
use nrt_aggragator.Prelude.Float.{Float, unit, of_ℕ}
use nrt_aggragator.Config.{ProcessorCfg, Value, list, flag, nil, cons, floats_in, texts_in}
use nrt_aggragator.Telemetry.{
  Bytes, Envelope, kind_traces, kind_metrics, Item, envelope, aggregate, other, KeyValue,
  attrs_to_map, NumberDataPoint, HistogramDataPoint, MetricData, sum_data, histogram_data, Metric,
  ResourceMetrics,
}

pub record Event : Type 0 where
  pub name : String
  pub attributes : List KeyValue

-- `kind` and `status_code` are the names that the protocol gives the two enumerations.
pub record Span : Type 0 where
  pub kind : String
  pub status_code : String
  pub start_time : ℕ
  pub end_time : ℕ
  pub attributes : List KeyValue
  pub events : List Event

pub record ResourceSpans : Type 0 where
  pub resource : Option (List KeyValue)
  pub scope_spans : List (List Span)

pub record Processor {ℓ} (F : Type ℓ) : Type ℓ where
  pub dimensions : List String
  pub error_event_attr_dims : List String
  pub error_event_names : List String
  pub err_from_status : Bool
  pub err_from_events : Bool
  pub hist_bounds : List F
  pub default_svc_attr : String

-- a number of 64 bits less another
abbrev minus_64 : ℕ → ℕ → ℕ
minus_64 a b = (a + 2 ^ 64 - b) % 2 ^ 64

-- `now` is what the clock says, as nanoseconds in 64 bits.
unfoldable safe_end : (now start end : ℕ) → ℕ
safe_end now start end = if end == 0 then now else if ltb end start then start else end

abbrev str_kv : String → String → KeyValue
str_kv k v = record { key = k; value = v }

abbrev in_list : List String → String → Bool
in_list xs target = any (λ s. str_eq s target) xs

-- The label of the map's entry, if it is there and not empty.
unfoldable pub label_of : Dict String → String → List KeyValue
label_of attrs k = elim (get attrs k) [
  | none ↦ []
  | some v ↦ if is_empty v then [] else str_kv k v ∷ []
]

abbrev attrs_of : Option (List KeyValue) → Dict String
attrs_of none = []
attrs_of (some attributes) = attrs_to_map attributes

module _ ⦃s : Strings⦄ where
  unfoldable pub in_lower : String → List String → Bool
  in_lower name xs = any (str_eq (to_lower name)) xs

  -- the labels of one configured dimension
  unfoldable pub dimension_labels : Dict String → Dict String → String → List KeyValue
  unfolding label_of
  dimension_labels span_attr res_attrs k =
      let kn = s.trim k in
      if is_empty kn || str_eq kn "span.kind" || str_eq kn "status.code"
      then []
      else if is_nil (label_of span_attr kn)
      then label_of res_attrs kn
      else label_of span_attr kn

  unfoldable pub all_dimension_labels : Dict String → Dict String → List String → List KeyValue
  unfolding dimension_labels
  all_dimension_labels span_attr res_attrs [] = []
  all_dimension_labels span_attr res_attrs (k ∷ ks) =
      dimension_labels span_attr res_attrs k ++ all_dimension_labels span_attr res_attrs ks

  unfoldable event_labels : List String → Dict String → List KeyValue
  unfolding label_of
  event_labels [] attrs = []
  event_labels (k ∷ ks) attrs = label_of attrs k ++ event_labels ks attrs

  unfoldable first_event_labels : List String → List String → List Event → List KeyValue
  unfolding in_lower event_labels
  first_event_labels names dims [] = []
  first_event_labels names dims (ev ∷ events) =
      let rest = first_event_labels names dims events in
      let out = event_labels dims (attrs_to_map ev.attributes) in
      if not (in_lower ev.name names) then rest else if is_nil out then rest else out

module _ {ℓ} {F : Type ℓ} ⦃f : Float F⦄ where
  -- 0.005, 0.01, 0.025, 0.05, 0.1, 0.25, 0.5, 1, 2.5, 5 and 10 seconds
  abbrev default_bounds : List F
  default_bounds =
      f.decimal 5 3
      ∷ f.decimal 10 3
      ∷ f.decimal 25 3
      ∷ f.decimal 5 2
      ∷ f.decimal 1 1
      ∷ f.decimal 25 2
      ∷ f.decimal 5 1
      ∷ f.decimal 1 0
      ∷ f.decimal 25 1
      ∷ f.decimal 5 0
      ∷ f.decimal 10 0
      ∷ []

  abbrev flag_or_true : Option (Value F) → Bool
  flag_or_true (some (flag b)) = b
  flag_or_true _ = true

  abbrev bounds_from : Option (Value F) → List F
  bounds_from (some (list (cons v vs))) = floats_in (cons v vs)
  bounds_from _ = default_bounds

  abbrev texts_from : Option (Value F) → List String → List String
  texts_from (some (list (cons v vs))) def = texts_in (cons v vs)
  texts_from _ def = def

module _ {ℓ} {F : Type ℓ} ⦃f : Float F⦄ ⦃s : Strings⦄ where
  unfoldable pub new : ProcessorCfg F → Processor F
  new cfg = record {
    dimensions = "service.name" ∷ "http.method" ∷ "http.route" ∷ "span.kind" ∷ "status.code" ∷ [];
    error_event_attr_dims = texts_from (get cfg.extra "error_event_attr_dims") [];
    error_event_names =
        map to_lower (texts_from (get cfg.extra "error_event_names") ("exception" ∷ []));
    err_from_status = flag_or_true (get cfg.extra "error_from_status");
    err_from_events = flag_or_true (get cfg.extra "error_from_events");
    hist_bounds = bounds_from (get cfg.extra "histogram_buckets");
    default_svc_attr = "service.name";
  }

  unfoldable pub is_error_span : Processor F → Span → Bool
  unfolding equal_fold in_lower
  is_error_span p sp =
      p.err_from_status && equal_fold sp.status_code "ERROR"
      || p.err_from_events && any (λ ev. in_lower ev.name p.error_event_names) sp.events

  unfoldable error_event_labels : Processor F → Span → List KeyValue
  unfolding first_event_labels
  error_event_labels p sp =
      if is_nil p.error_event_attr_dims
      then []
      else first_event_labels p.error_event_names p.error_event_attr_dims sp.events

  unfoldable pub build_dimensions : Processor F → Span → Dict String → List KeyValue
  unfolding all_dimension_labels label_of
  build_dimensions p sp res_attrs =
      let kind =
        if in_list p.dimensions "span.kind"
        then str_kv "span.kind" (to_lower sp.kind) ∷ []
        else [] in
      let status =
        if in_list p.dimensions "status.code"
        then str_kv "status.code" (to_lower sp.status_code) ∷ []
        else [] in
      kind
      ++ status
      ++ all_dimension_labels (attrs_to_map sp.attributes) res_attrs p.dimensions
      ++ label_of res_attrs p.default_svc_attr

module _ {ℓ} {F : Type ℓ} ⦃f : Float F⦄ where
  -- a counter of one
  unfoldable pub build_total : String → String → ℕ → ℕ → List KeyValue → Metric F
  build_total name description start end labels = record {
    name = name;
    description = description;
    measure = "1";
    data_of =
        sum_data true
          (record { time = end; start_time = start; attributes = labels; value = unit } ∷ []);
  }

  unfoldable pub build_requests_total : ℕ → ℕ → List KeyValue → Metric F
  unfolding build_total
  build_requests_total =
      build_total "requests_total" "Total number of spans (requests) derived from traces"

  unfoldable pub build_errors_total : ℕ → ℕ → List KeyValue → Metric F
  unfolding build_total
  build_errors_total =
      build_total "errors_total" "Total number of error spans (via status or error events)"

  unfoldable pub bucket_index : List F → F → ℕ
  bucket_index [] v = 0
  bucket_index (b ∷ bounds) v =
      let rest = suc (bucket_index bounds v) in if f.le v b || not (f.eq v v) then 0 else rest

  unfoldable pub bucket_counts : List F → F → List ℕ
  unfolding bucket_index
  bucket_counts bounds v =
      let bidx = bucket_index bounds v in
      let counts = replicate (length bounds + 1) 0 in
      if ltb bidx (length counts) then set counts bidx 1 else set counts (length counts - 1) 1

  unfoldable pub build_duration_histogram : Processor F → ℕ → ℕ → F → List KeyValue → Metric F
  unfolding bucket_counts
  build_duration_histogram p start end dur_sec labels = record {
    name = "duration_seconds";
    description = "Span duration in seconds (histogram)";
    measure = "s";
    data_of = histogram_data true (
        record {
          time = end;
          start_time = start;
          attributes = labels;
          explicit_bounds = p.hist_bounds;
          bucket_counts = bucket_counts p.hist_bounds dur_sec;
          count = 1;
          sum = dur_sec;
        }
        ∷ []);
  }

module _ {ℓ} {F : Type ℓ} ⦃f : Float F⦄ ⦃s : Strings⦄ where
  unfoldable pub error_metrics : Processor F → Span → ℕ → ℕ → List KeyValue → List (Metric F)
  unfolding is_error_span error_event_labels build_errors_total
  error_metrics p sp start end labels =
      if is_error_span p sp
      then build_errors_total start end
          (if p.err_from_events then labels ++ error_event_labels p sp else labels)
        ∷ []
      else []

  -- the metrics of one span; `clock` is what the clock says when the span is converted
  unfoldable pub span_metrics : Processor F → (Span → ℕ) → Dict String → Span → List (Metric F)
  unfolding safe_end build_dimensions build_requests_total build_duration_histogram error_metrics
  span_metrics p clock res_attrs sp =
      let start = sp.start_time in
      let end = safe_end (clock sp) start sp.end_time in
      let dur_sec = f.div (of_ℕ (minus_64 end start)) (f.decimal 1_000_000_000 0) in
      let labels = build_dimensions p sp res_attrs in
      build_requests_total start end labels
      ∷ build_duration_histogram p start end dur_sec labels
      ∷ error_metrics p sp start end labels

  unfoldable pub metrics_of_spans :
      Processor F → (Span → ℕ) → Dict String → List Span → List (Metric F)
  unfolding span_metrics
  metrics_of_spans p clock res_attrs [] = []
  metrics_of_spans p clock res_attrs (sp ∷ spans) =
      span_metrics p clock res_attrs sp ++ metrics_of_spans p clock res_attrs spans

  unfoldable pub metrics_of_scopes :
      Processor F → (Span → ℕ) → Dict String → List (List Span) → List (Metric F)
  unfolding metrics_of_spans
  metrics_of_scopes p clock res_attrs [] = []
  metrics_of_scopes p clock res_attrs (spans ∷ scopes) =
      metrics_of_spans p clock res_attrs spans ++ metrics_of_scopes p clock res_attrs scopes

  -- The metrics stand in the second scope; the first one, which is made with the resource, stays
  -- empty.
  unfoldable to_resource_metrics :
      Processor F → (Span → ℕ) → List ResourceSpans → List (ResourceMetrics F)
  unfolding metrics_of_scopes
  to_resource_metrics p clock [] = []
  to_resource_metrics p clock (rt ∷ rts) =
      let metrics = metrics_of_scopes p clock (attrs_of rt.resource) rt.scope_spans in
      let rest = to_resource_metrics p clock rts in
      if is_nil metrics
      then rest
      else record { resource = rt.resource; scope_metrics = [] ∷ metrics ∷ [] } ∷ rest

  module _ (decode : Bytes → Option (List ResourceSpans))
      (encode : List (ResourceMetrics F) → Option Bytes) where
    unfoldable traces_to_resource_metrics :
        Processor F → (Span → ℕ) → Bytes → List (ResourceMetrics F)
    unfolding to_resource_metrics
    traces_to_resource_metrics p clock raw = elim (decode raw) [
      | none ↦ []
      | some rts ↦ to_resource_metrics p clock rts
    ]

    -- what is sent for one item of the channel
    unfoldable pub step : Processor F → (Span → ℕ) → Item F → Item F
    unfolding traces_to_resource_metrics
    step p clock (envelope env) =
        let rms = traces_to_resource_metrics p clock env.bytes in
        if not (str_eq env.kind kind_traces)
        then envelope env
        else if is_nil rms
        then envelope env
        else elim (encode rms) [
          | none ↦ envelope env
          | some b ↦ envelope (record env { kind = kind_metrics; bytes = b })
        ]
    step p clock item = item
