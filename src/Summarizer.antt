-- ===== src/Summarizer.antt =====
-- mirador-nrt-aggregator-main/internal/processors/summarizer/summarizer.go: metrics aggregated into
-- windows per service. The t-digest and the decoding of the messages are third-party code and
-- parameters. The clock is a number of seconds since 1970. A counter of 64 bits wraps around.
pub mod Stream
pub mod Counters
pub mod Window
pub mod Spans
use Prim.Native.String.{◌++◌ as join}
use text.Mathlib.Text.{◌==◌ as str_eq}
use nrt_aggragator.Prelude.{
  ℕ, zero, suc, ◌+◌, ◌-◌, ◌%◌, ◌^◌, Bool, true, false, not, ◌&&◌, ◌||◌, List, [], ◌∷◌, ◌++◌, map,
  String, if◌then◌else◌, Option, none, some, ltb, leb,
}
use nrt_aggragator.Prelude.Int.{ℤ, pos, pos_part}
use nrt_aggragator.Prelude.Text.{
  Strings, to_lower, is_empty, has_suffix, has_prefix, first_non_empty,
}
use nrt_aggragator.Prelude.Dict.{Dict, get, put}
use nrt_aggragator.Prelude.Float.{Float, nought, of_ℕ, gt}
use nrt_aggragator.Config.{ProcessorCfg, extra_string}
use nrt_aggragator.Telemetry.{
  Bytes, Aggregate, Envelope, kind_metrics, kind_prom_rw, Item, envelope, aggregate, other,
  KeyValue, attrs_to_map, NumberDataPoint, HistogramDataPoint, MetricData, sum_data, histogram_data,
  other_data, Metric, ResourceMetrics,
}

-- What is used of github.com/caio/go-tdigest.
pub record TDigest {ℓ} (F T : Type ℓ) : Type ℓ where
  pub empty : T
  pub add : T → F → T
  pub size : T → ℕ
  pub quantile : T → F → F

pub record Svc {ℓ} (F T : Type ℓ) : Type ℓ where
  pub td : T
  pub req : F
  pub ok : F
  pub err : F
  pub count : ℕ
  pub labels : Dict String

pub record Processor {ℓ} (F T : Type ℓ) : Type ℓ where
  pub window_sec : ℕ
  pub svc_attr : String
  pub bucket_sample_cap : ℕ
  pub state : Dict (Svc F T)
  pub last : Dict F

-- a Prometheus time series: its labels in order, and the values of its samples
pub record TimeSeries {ℓ} (F : Type ℓ) : Type ℓ where
  pub labels : List KeyValue
  pub samples : List F

abbrev pub plus_64 : ℕ → ℕ → ℕ
plus_64 a b = (a + b) % 2 ^ 64

-- `m[key]` of a map of texts
abbrev pub text_at : Dict String → String → String
text_at m key = elim (get m key) [ none ↦ "" | some v ↦ v ]

abbrev attrs_of : Option (List KeyValue) → Dict String
attrs_of none = []
attrs_of (some attributes) = attrs_to_map attributes

unfoldable labels_into : Dict String → List KeyValue → Dict String
labels_into m [] = m
labels_into m (l ∷ ls) = labels_into (put m l.key l.value) ls

-- every label, the empty ones included
unfoldable pub labels_to_map : List KeyValue → Dict String
unfolding labels_into
labels_to_map = labels_into []

unfoldable pub get_attr : List KeyValue → String → String
get_attr [] key = ""
get_attr (a ∷ rest) key =
    let others = get_attr rest key in
    if str_eq a.key key && not (is_empty a.value) then a.value else others

unfoldable attr_texts : List KeyValue → String
attr_texts [] = ""
attr_texts (a ∷ rest) = join "|" (join a.key (join "=" (join a.value (attr_texts rest))))

unfoldable pub series_key : Dict String → String → List KeyValue → String
unfolding attr_texts
series_key res name attrs =
    join name (join "|" (join (text_at res "service.name") (attr_texts attrs)))

abbrev pub trunc : ℕ → ℕ → ℕ
trunc ts win = ts - ts % win

module _ ⦃s : Strings⦄ where
  unfoldable pub is_ok_status : String → Bool
  is_ok_status code =
      let c = to_lower code in
      str_eq c "ok"
      || str_eq c "unset"
      || str_eq c "2xx"
      || str_eq c "200"
      || str_eq c "201"
      || str_eq c "202"
      || str_eq c "204"
      || has_prefix c "2"

  abbrev pub status_of : List KeyValue → String
  status_of attrs =
      if is_empty (get_attr attrs "status.code")
      then get_attr attrs "status_code"
      else get_attr attrs "status.code"

  abbrev pub is_failure : String → Bool
  is_failure code = not (is_empty code) && not (is_ok_status code)

-- the service that the metrics of a resource count for
unfoldable pub service_of : String → Dict String → String
service_of svc_attr res =
    first_non_empty
      (text_at res svc_attr ∷ text_at res "service" ∷ text_at res "service.name" ∷ "unknown" ∷ [])

module _ {ℓ} {F : Type ℓ} ⦃f : Float F⦄ where
  abbrev pub maxf : F → F → F
  maxf a b = if gt a b then a else b

  abbrev minf : F → F → F
  minf a b = if f.lt a b then a else b

  -- `uint64(maxf(v, 0))`
  abbrev pub whole : F → ℕ
  whole v = pos_part (f.to_int (maxf v nought))

  -- The difference to the last value of the series, 0 where it fell, and the new last values.
  unfoldable pub delta : Dict F → String → F → F × Dict F
  delta last key cur =
      let d = f.sub cur (elim (get last key) [ none ↦ nought | some prev ↦ prev ]) in
      (if f.lt d nought then nought else d, put last key cur)

  -- `int(minf(v, float64(cap)))` samples of the bound
  abbrev pub reps_of : ℕ → F → ℕ
  reps_of cap_size v = pos_part (f.to_int (minf v (of_ℕ cap_size)))

  module _ ⦃s : Strings⦄ where
    -- the counts of the buckets from the `i`-th one on
    unfoldable bucket_deltas :
        Bool → String → Dict String → List KeyValue → ℕ → List ℕ → Dict F → List F × Dict F
    unfolding delta
    bucket_deltas is_delta name res attrs i [] last = ([], last)
    bucket_deltas is_delta name res attrs i (c ∷ cs) last =
        let key = series_key res (join name (join ":bucket:" (s.itoa (pos i)))) attrs in
        let change = if is_delta then (of_ℕ c, last) else delta last key (of_ℕ c) in
        let rest = bucket_deltas is_delta name res attrs (suc i) cs change.1 in
        (change.0 ∷ rest.0, rest.1)

module _ {ℓ} {F T : Type ℓ} ⦃f : Float F⦄ where
  abbrev pub add_requests : Bool → F → Svc F T → Svc F T
  add_requests failed val st = record st {
    req = f.add st.req val;
    err = if failed then f.add st.err val else st.err;
    ok = if failed then st.ok else f.add st.ok val;
    count = plus_64 st.count (whole val);
  }

  abbrev pub add_errors : F → Svc F T → Svc F T
  add_errors val st = record st {
    err = f.add st.err val;
    req = f.add st.req val;
    count = plus_64 st.count (whole val);
  }

  module _ ⦃s : Strings⦄ where
    unfoldable pub count_point : String → List KeyValue → F → Svc F T → Svc F T
    count_point name attrs val st =
        let requested =
          if has_suffix name "requests_total"
          then add_requests (is_failure (status_of attrs)) val st
          else st in
        if has_suffix name "errors_total" then add_errors val requested else requested

    unfoldable pub consume_sum :
        Bool → String → Dict String → List (NumberDataPoint F) → Dict F × Svc F T → Dict F × Svc F T
    unfolding count_point
    consume_sum is_delta name res [] (last, st) = (last, st)
    consume_sum is_delta name res (dp ∷ dps) (last, st) =
        let change =
          if is_delta
          then (dp.value, last)
          else delta last (series_key res name dp.attributes) dp.value in
        consume_sum is_delta name res dps (change.1, count_point name dp.attributes change.0 st)

  module _ ⦃t : TDigest F T⦄ where
    unfoldable pub add_times : ℕ → F → T → T
    add_times zero x td = td
    add_times (suc n) x td = add_times n x (t.add td x)

    unfoldable add_buckets : ℕ → List F → List F → Svc F T → Svc F T
    unfolding add_times
    add_buckets cap_size [] bounds st = st
    add_buckets cap_size (c ∷ cs) [] st = st
    add_buckets cap_size (c ∷ cs) (ub ∷ bounds) st = add_buckets cap_size cs bounds (record st {
      td = add_times (reps_of cap_size c) ub st.td;
      count = plus_64 st.count (reps_of cap_size c);
    })

    abbrev new_svc : Svc F T
    new_svc = record {
      td = t.empty;
      req = nought;
      ok = nought;
      err = nought;
      count = 0;
      labels = [];
    }

    unfoldable pub ensure_svc : Dict (Svc F T) → String → Svc F T
    ensure_svc state name = elim (get state name) [ none ↦ new_svc | some st ↦ st ]

    module _ ⦃s : Strings⦄ where
      unfoldable consume_histogram :
          ℕ
          → Bool
          → String
          → Dict String
          → List (HistogramDataPoint F)
          → Dict F × Svc F T
          → Dict F × Svc F T
      unfolding bucket_deltas add_buckets
      consume_histogram cap_size is_delta name res [] (last, st) = (last, st)
      consume_histogram cap_size is_delta name res (dp ∷ dps) (last, st) =
          let counts = bucket_deltas is_delta name res dp.attributes 0 dp.bucket_counts last in
          consume_histogram cap_size is_delta name res dps
            (counts.1, add_buckets cap_size counts.0 dp.explicit_bounds st)

      unfoldable pub consume_metric :
          ℕ → Dict String → Metric F → Dict F × Svc F T → Dict F × Svc F T
      unfolding consume_sum consume_histogram
      consume_metric cap_size res m acc = elim m.data_of [
        | sum_data is_delta dps ↦ consume_sum is_delta m.name res dps acc
        | histogram_data is_delta dps ↦ consume_histogram cap_size is_delta m.name res dps acc
        | other_data ↦ acc
      ]

      unfoldable consume_metrics :
          ℕ → Dict String → List (Metric F) → Dict F × Svc F T → Dict F × Svc F T
      unfolding consume_metric
      consume_metrics cap_size res [] acc = acc
      consume_metrics cap_size res (m ∷ ms) acc =
          consume_metrics cap_size res ms (consume_metric cap_size res m acc)

      unfoldable consume_scopes :
          ℕ → Dict String → List (List (Metric F)) → Dict F × Svc F T → Dict F × Svc F T
      unfolding consume_metrics
      consume_scopes cap_size res [] acc = acc
      consume_scopes cap_size res (ms ∷ scopes) acc =
          consume_scopes cap_size res scopes (consume_metrics cap_size res ms acc)

      unfoldable pub consume_resource : Processor F T → ResourceMetrics F → Processor F T
      unfolding ensure_svc consume_scopes service_of
      consume_resource p rm =
          let res = attrs_of rm.resource in
          let svc = service_of p.svc_attr res in
          let done =
            consume_scopes p.bucket_sample_cap res rm.scope_metrics
              (p.last, ensure_svc p.state svc) in
          record p { last = done.0; state = put p.state svc done.1 }

      unfoldable pub consume_otlp : Processor F T → List (ResourceMetrics F) → Processor F T
      unfolding consume_resource
      consume_otlp p [] = p
      consume_otlp p (rm ∷ rms) = consume_otlp (consume_resource p rm) rms
