-- ===== src/Extractors.antt =====
-- mirador-rca-main/internal/extractors: the anomaly detectors over metrics, logs and traces.
use Prim.Native.String.{String}
use text.Mathlib.Text.{◌==◌}
use nrt_aggragator.Prelude.{◌-◌, List, [], ◌∷◌, if◌then◌else◌, map, length, get_or, ◌||◌, ◌&&◌}
use nrt_aggragator.Prelude.Int.{ℤ, ltb_ℤ, quot, rem}
use nrt_aggragator.Prelude.Sort.{sort}
use nrt_aggragator.Prelude.Text.{Strings, equal_fold}
use nrt_aggragator.Prelude.Float.{Float, nought, unit, of_ℕ, ge}
use nrt_aggragator.Models.{Time, MetricPoint, LogEntry, TraceSpan}
use nrt_aggragator.Latency.{clamp_index}

pub record MetricAnomaly {ℓ} (F : Type ℓ) : Type ℓ where
  pub timestamp : Time
  pub value : F
  pub score : F
  pub threshold : F

pub record LogAnomaly {ℓ} (F : Type ℓ) : Type ℓ where
  pub timestamp : Time
  pub severity : String
  pub count : ℤ
  pub score : F

pub record TraceAnomaly {ℓ} (F : Type ℓ) : Type ℓ where
  pub span : TraceSpan
  pub score : F
  pub median : F

module _ {ℓ} {F : Type ℓ} ⦃f : Float F⦄ where
  -- `for … { total += v }`
  pub sum_from : F → List F → F
  sum_from total [] = total
  sum_from total (v ∷ vs) = sum_from (f.add total v) vs

  unfoldable pub mean : List F → F
  unfolding sum_from
  mean values = f.div (sum_from nought values) (of_ℕ (length values))

  abbrev square : F → F
  square d = f.mul d d

  unfoldable std_dev : List F → F → F
  unfolding sum_from
  std_dev values m =
      f.sqrt (f.div (sum_from nought (map (λ v. square (f.sub v m)) values)) (of_ℕ (length values)))

  -- a deviation of zero is replaced
  abbrev or_default : F → F → F
  or_default x d = if f.eq x nought then d else x

  -- the threshold of `MetricExtractor.Detect`
  unfoldable metric_threshold : F → F
  metric_threshold t = if f.le t nought then f.decimal 25 1 else t

  metric_deviation : List F → F
  unfolding sum_from mean
  metric_deviation values =
      let m = mean values in
      or_default
        (f.sqrt (
          f.div (sum_from nought (map (λ v. f.pow (f.sub v m) (f.decimal 2 0)) values))
            (of_ℕ (length values))))
        (f.decimal 1 2)

  -- the last loop of `MetricExtractor.Detect`
  pub metric_anomalies : F → F → F → List (MetricPoint F) → List (MetricAnomaly F)
  metric_anomalies m dev threshold [] = []
  metric_anomalies m dev threshold (p ∷ ps) =
      let score = f.div (f.sub p.value m) dev in
      let rest = metric_anomalies m dev threshold ps in
      if ge score threshold
      then record { timestamp = p.timestamp; value = p.value; score = score; threshold = threshold }
        ∷ rest
      else rest

  unfoldable pub detect_metrics : List (MetricPoint F) → F → List (MetricAnomaly F)
  unfolding metric_anomalies metric_deviation mean metric_threshold
  detect_metrics [] threshold = []
  detect_metrics (p ∷ ps) threshold =
      let values = map (λ (p : MetricPoint F). p.value) (p ∷ ps) in
      metric_anomalies (mean values) (metric_deviation values) (metric_threshold threshold) (p ∷ ps)

  -- the last loop of `TracesExtractor.Detect`, with the span's seconds
  pub trace_anomalies : (TraceSpan → F) → F → F → F → List TraceSpan → List (TraceAnomaly F)
  trace_anomalies seconds m dev threshold [] = []
  trace_anomalies seconds m dev threshold (span ∷ spans) =
      let score = f.div (f.sub (seconds span) m) dev in
      let rest = trace_anomalies seconds m dev threshold spans in
      if ge score threshold || span.status == "error"
      then record { span = span; score = score; median = m } ∷ rest
      else rest

  -- `Duration.Seconds`: whole seconds and the rest
  unfoldable pub seconds_of : TraceSpan → F
  unfolding quot rem
  seconds_of span =
      f.add (f.of_int (quot span.duration 1_000_000_000))
        (f.div (f.of_int (rem span.duration 1_000_000_000)) (f.decimal 1_000_000_000 0))

  unfoldable pub detect_traces : List TraceSpan → List (TraceAnomaly F)
  unfolding trace_anomalies mean std_dev
  detect_traces [] = []
  detect_traces (span ∷ spans) =
      let durations = map seconds_of (span ∷ spans) in
      let m = mean durations in
      trace_anomalies seconds_of m (or_default (std_dev durations m) (f.decimal 1 2))
        (f.decimal 2 0) (span ∷ spans)

  unfoldable pub percentile : List F → F → F
  unfolding clamp_index
  percentile [] p = nought
  percentile (v ∷ vs) p =
      let sorted = sort f.lt (v ∷ vs) in
      get_or sorted
        (clamp_index (f.to_int (f.round (f.mul p (of_ℕ (length sorted - 1))))) (length sorted))
        nought

  unfoldable mean_absolute_deviation : List F → F → F
  unfolding sum_from
  mean_absolute_deviation [] center = nought
  mean_absolute_deviation (v ∷ vs) center =
      f.div (sum_from nought (map (λ v. f.abs (f.sub v center)) (v ∷ vs))) (of_ℕ (length (v ∷ vs)))

  module _ ⦃s : Strings⦄ where
    -- the loop of `LogsExtractor.Detect`
    pub log_anomalies : F → F → List LogEntry → List (LogAnomaly F)
    log_anomalies median mad [] = []
    log_anomalies median mad (e ∷ es) =
        let score = f.div (f.abs (f.sub (f.of_int e.count) median)) mad in
        let rest = log_anomalies median mad es in
        let limit = f.to_int (f.mul median (f.decimal 13 1)) in
        if ge score (f.decimal 3 0)
        then record {
          timestamp = e.timestamp;
          severity = e.severity;
          count = e.count;
          score = score;
        }
          ∷ rest
        else if equal_fold e.severity "error" && ltb_ℤ limit e.count
        then record {
          timestamp = e.timestamp;
          severity = e.severity;
          count = e.count;
          score = f.decimal 3 0;
        }
          ∷ rest
        else rest

    unfoldable pub detect_logs : List LogEntry → List (LogAnomaly F)
    unfolding log_anomalies percentile mean_absolute_deviation
    detect_logs [] = []
    detect_logs (e ∷ es) =
        let counts = map (λ (e : LogEntry). f.of_int e.count) (e ∷ es) in
        let median = percentile counts (f.decimal 5 1) in
        log_anomalies median (or_default (mean_absolute_deviation counts median) unit) (e ∷ es)
