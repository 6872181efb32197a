-- ===== src/Engine/Steps.antt =====
-- The steps of pipeline.go that turn anomalies into anchors, a timeline and a confidence.
use Prim.Native.String.{◌++◌ as join}
use text.Mathlib.Text.{◌==◌}
use nrt_aggragator.Prelude.{
  ℕ, Bool, List, [], ◌∷◌, ◌++◌, map, String, if◌then◌else◌, length, take, ltb,
}
use nrt_aggragator.Prelude.Int.{ltb_ℤ}
use nrt_aggragator.Prelude.Sort.{sort}
use nrt_aggragator.Prelude.Float.{Float, nought, unit, ge, gt}
use nrt_aggragator.Models.{
  Severity, severity_low, severity_medium, severity_high, severity_critical, data_type_metrics,
  data_type_logs, data_type_traces, RedAnchor, TimelineEvent,
}
use nrt_aggragator.Causality.{clamp}
use nrt_aggragator.Extractors.{MetricAnomaly, LogAnomaly, TraceAnomaly}

-- `if len(xs) > n { xs = xs[:n] }`
abbrev pub at_most {ℓ} : {A : Type ℓ} → ℕ → List A → List A
at_most n xs = if ltb n (length xs) then take n xs else xs

module _ {ℓ} {F : Type ℓ} ⦃f : Float F⦄ where
  unfoldable severity_from_score : F → Severity
  severity_from_score score =
      if ge score (f.decimal 4 0)
      then severity_critical
      else if ge score (f.decimal 3 0)
      then severity_high
      else if ge score (f.decimal 2 0)
      then severity_medium
      else severity_low

  unfoldable pub metric_anchor : String → MetricAnomaly F → RedAnchor F
  metric_anchor service m = record {
    service = service;
    selector = "metrics:cpu_usage";
    data_type = data_type_metrics;
    timestamp = m.timestamp;
    anomaly_score = m.score;
    threshold = m.threshold;
  }

  unfoldable pub log_anchor : String → LogAnomaly F → RedAnchor F
  log_anchor service l = record {
    service = service;
    selector = join "logs:" l.severity;
    data_type = data_type_logs;
    timestamp = l.timestamp;
    anomaly_score = l.score;
    threshold = f.decimal 3 0;
  }

  unfoldable pub trace_anchor : TraceAnomaly F → RedAnchor F
  trace_anchor t = record {
    service = t.span.service;
    selector = join "trace:" t.span.operation;
    data_type = data_type_traces;
    timestamp = t.span.timestamp;
    anomaly_score = t.score;
    threshold = f.decimal 2 0;
  }

  -- the anchors before they are ranked
  unfoldable pub all_anchors :
      String
      → List (MetricAnomaly F)
      → List (LogAnomaly F)
      → List (TraceAnomaly F)
      → List (RedAnchor F)
  all_anchors service ms ls ts =
      map (metric_anchor service) ms ++ (map (log_anchor service) ls ++ map trace_anchor ts)

  abbrev pub scores_more : RedAnchor F → RedAnchor F → Bool
  scores_more a b = gt a.anomaly_score b.anomaly_score

  unfoldable pub build_anchors :
      String
      → List (MetricAnomaly F)
      → List (LogAnomaly F)
      → List (TraceAnomaly F)
      → List (RedAnchor F)
  build_anchors service ms ls ts = at_most 5 (sort scores_more (all_anchors service ms ls ts))

  metric_event : MetricAnomaly F → TimelineEvent F
  metric_event m = record {
    time = m.timestamp;
    event = "Metric anomaly detected";
    service = "";
    severity = severity_from_score m.score;
    anomaly_score = m.score;
    data_source = data_type_metrics;
  }

  log_event : LogAnomaly F → TimelineEvent F
  log_event l = record {
    time = l.timestamp;
    event = join "Log spike (" (join l.severity ")");
    service = "";
    severity = severity_from_score l.score;
    anomaly_score = l.score;
    data_source = data_type_logs;
  }

  trace_event : TraceAnomaly F → TimelineEvent F
  trace_event t = record {
    time = t.span.timestamp;
    event = join "Slow span: " t.span.operation;
    service = t.span.service;
    severity = if t.span.status == "error" then severity_high else severity_from_score t.score;
    anomaly_score = t.score;
    data_source = data_type_traces;
  }

  unfoldable pub all_events :
      List (MetricAnomaly F) → List (LogAnomaly F) → List (TraceAnomaly F) → List (TimelineEvent F)
  unfolding metric_event log_event trace_event severity_from_score
  all_events ms ls ts = map metric_event ms ++ (map log_event ls ++ map trace_event ts)

  abbrev pub earlier : TimelineEvent F → TimelineEvent F → Bool
  earlier a b = ltb_ℤ a.time b.time

  unfoldable pub build_timeline :
      List (MetricAnomaly F) → List (LogAnomaly F) → List (TraceAnomaly F) → List (TimelineEvent F)
  build_timeline ms ls ts = at_most 10 (sort earlier (all_events ms ls ts))

  -- the loop of `maxMetricScore`, `maxLogScore` and `maxTraceScore`
  unfoldable max_score : F → List F → F
  max_score max [] = max
  max_score max (a ∷ as') = max_score (if gt a max then a else max) as'

  -- the contribution of one kind of signal
  signal_confidence : List F → F → F → F → F
  unfolding max_score clamp
  signal_confidence [] divisor limit c = c
  signal_confidence (a ∷ as') divisor limit c =
      f.add c
        (f.add (f.decimal 25 2) (clamp (f.div (max_score nought (a ∷ as')) divisor) nought limit))

  unfoldable pub compute_confidence :
      List (MetricAnomaly F) → List (LogAnomaly F) → List (TraceAnomaly F) → F
  unfolding signal_confidence
  compute_confidence ms ls ts =
      let c1 =
        signal_confidence (map (λ (m : MetricAnomaly F). m.score) ms) (f.decimal 8 0)
          (f.decimal 25 2) nought in
      let c2 =
        signal_confidence (map (λ (l : LogAnomaly F). l.score) ls) (f.decimal 6 0) (f.decimal 2 1)
          c1 in
      let c3 =
        signal_confidence (map (λ (t : TraceAnomaly F). t.score) ts) (f.decimal 6 0) (f.decimal 2 1)
          c2 in
      if gt c3 unit then unit else c3

  unfoldable pub calibrate_confidence : F → F → F
  unfolding clamp
  calibrate_confidence base causality =
      let b = clamp base nought unit in
      if f.le causality nought
      then clamp (f.mul b (f.decimal 7 1)) nought unit
      else clamp (f.add (f.mul b (f.decimal 6 1)) (f.mul causality (f.decimal 4 1))) nought unit

module _ {ℓ} {F : Type ℓ} where
  unfoldable pub derive_root_cause : String → List (RedAnchor F) → String
  derive_root_cause service [] = join service ": no dominant anchor"
  derive_root_cause service (a ∷ as') = join a.service (join ": " (join a.selector " anomaly"))
