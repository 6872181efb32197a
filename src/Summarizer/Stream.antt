-- ===== src/Summarizer/Stream.antt =====
-- The rest of summarizer.go: Prometheus remote write, the end of a window, and the loop. What the
-- loop selects is a sequence of events, a message or a tick of the clock.
use Prim.Native.String.{◌++◌ as join}
use text.Mathlib.Text.{◌==◌ as str_eq}
use nrt_aggragator.Prelude.{
  suc, ℕ, ◌+◌, Bool, List, [], ◌∷◌, ◌++◌, map, String, if◌then◌else◌, Option, none, some, ltb, leb,
}
use nrt_aggragator.Prelude.Int.{ℤ, pos, pos_part}
use nrt_aggragator.Prelude.Text.{Strings, is_empty, has_suffix, first_non_empty}
use nrt_aggragator.Prelude.Dict.{Dict, get, put}
use nrt_aggragator.Prelude.Float.{Float, nought, of_ℕ, gt}
use nrt_aggragator.Config.{ProcessorCfg, Value, int, float, str, extra_string}
use nrt_aggragator.Telemetry.{
  Bytes, Aggregate, kind_metrics, kind_prom_rw, Item, envelope, aggregate, ResourceMetrics,
}
use nrt_aggragator.Summarizer.{
  TDigest, Svc, Processor, TimeSeries, plus_64, text_at, labels_to_map, trunc, is_failure, maxf,
  whole, reps_of, add_requests, add_errors, add_times, ensure_svc, consume_otlp,
}

-- the service that a time series counts for
unfoldable series_service : String → Dict String → String
series_service svc_attr lbls = first_non_empty (
    text_at lbls svc_attr
    ∷ text_at lbls "service.name"
    ∷ text_at lbls "service"
    ∷ text_at lbls "job"
    ∷ "unknown"
    ∷ [])

module _ {ℓ} {F : Type ℓ} ⦃f : Float F⦄ ⦃s : Strings⦄ where
  unfoldable pub build_summary_text : String → F → F → ℕ → String
  build_summary_text svc rps err_rate count = join "summary service=" (
      join svc (
        join " rps=" (
          join (f.format 6 rps) (
            join " error_rate="
              (join (f.format 6 err_rate) (join " count=" (s.itoa (pos count))))))))

module _ {ℓ} {F T : Type ℓ} ⦃f : Float F⦄ ⦃t : TDigest F T⦄ where
  unfoldable add_latencies : ℕ → F → List F → Svc F T → Svc F T
  unfolding add_times
  add_latencies cap_size ub [] st = st
  add_latencies cap_size ub (v ∷ vs) st = add_latencies cap_size ub vs (record st {
    td = add_times (reps_of cap_size v) ub st.td;
    count = plus_64 st.count (whole v);
  })

  unfoldable add_all_requests : Bool → List F → Svc F T → Svc F T
  add_all_requests failed [] st = st
  add_all_requests failed (v ∷ vs) st =
      add_all_requests failed vs (add_requests failed (maxf v nought) st)

  unfoldable add_all_errors : List F → Svc F T → Svc F T
  add_all_errors [] st = st
  add_all_errors (v ∷ vs) st = add_all_errors vs (add_errors (maxf v nought) st)

  module _ ⦃s : Strings⦄ (parse_float : String → Option F) where
    unfoldable count_series : ℕ → Dict String → List F → Svc F T → Svc F T
    unfolding add_latencies add_all_requests add_all_errors
    count_series cap_size lbls samples st =
        let name = text_at lbls "__name__" in
        let code = first_non_empty (text_at lbls "status_code" ∷ text_at lbls "code" ∷ []) in
        if has_suffix name "_duration_seconds_bucket"
        then if is_empty (text_at lbls "le") then st else elim (parse_float (text_at lbls "le")) [
          | none ↦ st
          | some ub ↦ add_latencies cap_size ub samples st
        ]
        else if has_suffix name "_requests_total"
        then add_all_requests (is_failure code) samples st
        else if has_suffix name "_errors_total"
        then add_all_errors samples st
        else st

    unfoldable pub consume_prom_rw : Processor F T → List (TimeSeries F) → Processor F T
    unfolding count_series series_service ensure_svc
    consume_prom_rw p [] = p
    consume_prom_rw p (ts ∷ series) =
        let lbls = labels_to_map ts.labels in
        let svc = series_service p.svc_attr lbls in
        let st = count_series p.bucket_sample_cap lbls ts.samples (ensure_svc p.state svc) in
        consume_prom_rw (record p { state = put p.state svc st }) series

  abbrev quantile_of : Svc F T → F → F
  quantile_of st q = if ltb 0 (t.size st.td) then t.quantile st.td q else nought

  abbrev error_rate_of : Svc F T → F
  error_rate_of st =
      if gt (f.add st.ok st.err) nought then f.div st.err (f.add st.ok st.err) else nought

  module _ ⦃s : Strings⦄ where
    -- the aggregate of one service for the window that begins at `win_start`
    unfoldable pub summarize : ℕ → ℕ → String → Svc F T → Aggregate F
    unfolding build_summary_text
    summarize window_sec win_start svc st =
        let rps = f.div st.req (of_ℕ window_sec) in
        record {
          service = svc;
          window_start = pos win_start;
          window_end = pos (win_start + window_sec);
          labels = st.labels;
          locator = "{}";
          count = st.count;
          rps = rps;
          error_rate = error_rate_of st;
          p50 = quantile_of st (f.decimal 5 1);
          p95 = quantile_of st (f.decimal 95 2);
          p99 = quantile_of st (f.decimal 99 2);
          anomaly_score = nought;
          summary_text = build_summary_text svc rps (error_rate_of st) st.count;
          vector = [];
        }

    -- one round of the loop over the services
    unfoldable pub add_summary : ℕ → ℕ → String → Option (Svc F T) → List (Item F) → List (Item F)
    unfolding summarize
    add_summary window_sec win_start svc none rest = rest
    add_summary window_sec win_start svc (some st) rest =
        aggregate (summarize window_sec win_start svc st) ∷ rest

    unfoldable pub summaries : ℕ → ℕ → Dict (Svc F T) → List String → List (Item F)
    unfolding add_summary
    summaries window_sec win_start state [] = []
    summaries window_sec win_start state (svc ∷ svcs) =
        add_summary window_sec win_start svc (get state svc)
          (summaries window_sec win_start state svcs)

    -- What is sent at the end of a window; the last values of the series stay. `range` is the order
    -- in which the keys of the map are visited.
    unfoldable pub flush :
        (List String → List String) → Processor F T → ℕ → Processor F T × List (Item F)
    unfolding summaries
    flush range p win_start = (
      record p { state = [] },
      summaries p.window_sec win_start p.state (range (map (λ e. e.0) p.state)),
    )

-- A message, or a tick at a time in seconds.
pub data Input {ℓ} (F : Type ℓ) : Type ℓ where
  message : Item F → Input F
  tick : ℕ → Input F

-- the state of the loop
pub record Loop {ℓ} (F T : Type ℓ) : Type ℓ where
  pub processor : Processor F T
  pub win_start : ℕ

-- the third-party decoders, and the order of a range
pub record Decoders {ℓ} (F : Type ℓ) : Type ℓ where
  pub decode_otlp : Bytes → Option (List (ResourceMetrics F))
  pub decode_prom_rw : Bytes → Option (List (TimeSeries F))
  pub parse_float : String → Option F
  pub range : List String → List String

module _ {ℓ} {F T : Type ℓ} ⦃f : Float F⦄ ⦃t : TDigest F T⦄ ⦃s : Strings⦄ (d : Decoders F) where
  unfoldable pub consume_otlp_metrics : Processor F T → Bytes → Processor F T
  unfolding consume_otlp
  consume_otlp_metrics p raw = elim (d.decode_otlp raw) [ none ↦ p | some rms ↦ consume_otlp p rms ]

  unfoldable pub consume_remote_write : Processor F T → Bytes → Processor F T
  unfolding consume_prom_rw
  consume_remote_write p raw = elim (d.decode_prom_rw raw) [
    | none ↦ p
    | some series ↦ consume_prom_rw d.parse_float p series
  ]

  -- One round of the loop: the new state, and what is sent. Both kinds of messages are accepted.
  unfoldable pub step : Loop F T → Input F → Loop F T × List (Item F)
  unfolding consume_otlp_metrics consume_remote_write flush
  step l (message (envelope env)) =
      if str_eq env.kind kind_metrics
      then (record l { processor = consume_otlp_metrics l.processor env.bytes }, [])
      else if str_eq env.kind kind_prom_rw
      then (record l { processor = consume_remote_write l.processor env.bytes }, [])
      else (l, envelope env ∷ [])
  step l (message item) = (l, item ∷ [])
  step l (tick now) =
      if leb (l.win_start + l.processor.window_sec) now
      then (
        record {
          processor = (flush d.range l.processor l.win_start).0;
          win_start = trunc now l.processor.window_sec;
        },
        (flush d.range l.processor l.win_start).1,
      )
      else (l, [])

  -- what is sent until the channel or the context ends
  unfoldable pub run : Loop F T → List (Input F) → List (Item F)
  unfolding step
  run l [] = []
  run l (i ∷ is) = (step l i).1 ++ run (step l i).0 is

abbrev window_of : ℤ → ℕ
window_of (pos (suc n)) = suc n
window_of _ = 60

module _ {ℓ} {F : Type ℓ} ⦃f : Float F⦄ (atoi : String → Option ℤ) where
  -- what is configured where it is positive, or 50
  abbrev sample_cap : Option (Value F) → ℕ
  sample_cap (some (int (pos (suc n)))) = suc n
  sample_cap (some (float x)) = if gt x nought then pos_part (f.to_int x) else 50
  sample_cap (some (str text_value)) = elim (atoi text_value) [
    | some (pos (suc n)) ↦ suc n
    | _ ↦ 50
  ]
  sample_cap _ = 50

  unfoldable pub new : {T : Type ℓ} → ProcessorCfg F → Processor F T
  unfolding extra_string
  new cfg = record {
    window_sec = window_of cfg.window_seconds;
    svc_attr = extra_string cfg "service_attribute" "service.name";
    bucket_sample_cap = sample_cap (get cfg.extra "bucket_sample_cap");
    state = [];
    last = [];
  }
