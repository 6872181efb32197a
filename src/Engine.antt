-- ===== src/Engine.antt =====
-- mirador-rca-main/internal/engine/pipeline.go: the investigation pipeline. The steps on anomalies
-- are in `Engine.Steps`; here they are put together. The clients of mirador-core and of Weaviate
-- are interfaces of the source, and so are they here: records of functions. What is stored is a
-- list of the calls of `StoreCorrelation`. Logging is left out.
pub mod Steps
pub mod Topology
pub mod Anchors
pub mod Services
pub mod Outcome
use Prim.Native.String.{◌++◌ as join}
use nrt_aggragator.Prelude.{
  ℕ, Bool, not, true, false, ◌&&◌, List, [], ◌∷◌, ◌++◌, String, if◌then◌else◌, Option, none, some,
}
use nrt_aggragator.Prelude.Int.{ℤ, ◌+ℤ◌}
use nrt_aggragator.Prelude.Text.{Strings, equal_fold, is_empty, first_non_empty}
use nrt_aggragator.Prelude.Float.{Float, nought}
use nrt_aggragator.Prelude.Result.{Result, ok, err, ◌>>=◌, wrap}
use nrt_aggragator.Models.{
  Time, minus_half_second, severity_medium, data_type_traces, RedAnchor, TimelineEvent,
  CorrelationResult, InvestigationRequest, MetricPoint, LogEntry, TraceSpan, ServiceGraphEdge,
}
use nrt_aggragator.Causality.{CausalityResult, no_result, root_event_time, evaluate}
use nrt_aggragator.Recommend.{Rule, append_unique, recommend}
use nrt_aggragator.Extractors.{detect_metrics, detect_logs, detect_traces}
use Steps.{
  build_anchors, build_timeline, compute_confidence, calibrate_confidence, derive_root_cause,
}
use Topology.{neighbor_services, append_topology_events}

pub record CoreClient {ℓ} (F : Type ℓ) : Type ℓ where
  pub fetch_metric_series : String → String → Time → Time → Result (List (MetricPoint F))
  pub fetch_log_entries : String → String → Time → Time → Result (List LogEntry)
  pub fetch_trace_spans : String → String → Time → Time → Result (List TraceSpan)
  pub fetch_service_graph : String → Time → Time → Result (List (ServiceGraphEdge F))

-- The answer of `StoreCorrelation` is only logged.
pub record WeaviateClient {ℓ} (F : Type ℓ) : Type ℓ where
  pub similar_incidents : String → List String → ℕ → Result (List (CorrelationResult F))

pub record Pipeline {ℓ} (F : Type ℓ) : Type ℓ where
  pub core_client : Option (CoreClient F)
  pub weaviate : Option (WeaviateClient F)
  pub rules_engine : Option (List Rule)
  -- whether there is a causality engine
  pub causality_engine : Bool

-- What one call reads from outside: the clock, three times, and the order in which a `range` over
-- a map visits its keys.
pub record Surroundings : Type 0 where
  pub now_topology : Time
  pub now_id : ℤ
  pub now_created : Time
  pub range : List String → List String

pub record Signals {ℓ} (F : Type ℓ) : Type ℓ where
  pub service_graph : List (ServiceGraphEdge F)
  pub metrics : List (MetricPoint F)
  pub logs : List LogEntry
  pub traces : List TraceSpan

abbrev pub default_recommendations : List String
default_recommendations =
    "Review recent deployments for regressions"
    ∷ "Check upstream dependencies for correlated errors" ∷ []

abbrev first_or : List String → String → String
first_or [] d = d
first_or (s ∷ ss) d = s

-- a failed fetch of the graph is only logged
abbrev pub graph_or_empty {ℓ} : {A : Type ℓ} → Result (List A) → List A
graph_or_empty (ok g) = g
graph_or_empty (err e) = []

-- a non-empty list, or else the other one
abbrev pub or_else {ℓ} : {A : Type ℓ} → List A → List A → List A
or_else [] d = d
or_else (x ∷ xs) d = x ∷ xs

unfoldable pub unique_strings : List String → List String
unique_strings values = append_unique [] values

module _ {ℓ} {F : Type ℓ} where
  unfoldable pub determine_service : InvestigationRequest F → String
  unfolding first_non_empty
  determine_service req =
      let service = first_non_empty req.affected_services in
      let service' = if is_empty service then first_or req.symptoms "" else service in
      if is_empty service' then "unknown-service" else service'

  fetch_from : CoreClient F → InvestigationRequest F → String → Result (Signals F)
  fetch_from c req service = do
    metrics ←
        wrap "fetch metrics: "
          (c.fetch_metric_series req.tenant_id service req.time_range.start req.time_range.end)
    logs ←
        wrap "fetch logs: "
          (c.fetch_log_entries req.tenant_id service req.time_range.start req.time_range.end)
    spans ←
        wrap "fetch traces: "
          (c.fetch_trace_spans req.tenant_id service req.time_range.start req.time_range.end)
    ok (record {
      service_graph =
          graph_or_empty
            (c.fetch_service_graph req.tenant_id req.time_range.start req.time_range.end);
      metrics = metrics;
      logs = logs;
      traces = spans;
    })

  unfoldable pub fetch_signals : Pipeline F → InvestigationRequest F → String → Result (Signals F)
  unfolding fetch_from
  fetch_signals p req service = elim p.core_client [
    | none ↦ err "core client not configured"
    | some c ↦ fetch_from c req service
  ]

  -- the recommendations of the first similar incident, `[]` where there are none
  similar_recommendations : Result (List (CorrelationResult F)) → List String
  similar_recommendations (err e) = []
  similar_recommendations (ok []) = []
  similar_recommendations (ok (r ∷ rs)) = r.recommendations

-- the test on the suggested service
unfoldable pub suggests : ⦃s : Strings⦄ → String → String → Bool
suggests suggested service = not (is_empty suggested) && not (equal_fold suggested service)

module _ {ℓ} {F : Type ℓ} ⦃s : Strings⦄ where
  unfoldable pub recommend_from_rules :
      Pipeline F
      → InvestigationRequest F
      → List (RedAnchor F)
      → List (TimelineEvent F)
      → List String
  recommend_from_rules p req anchors timeline =
      or_else (recommend p.rules_engine req anchors timeline) default_recommendations

  unfoldable pub fetch_recommendations :
      Pipeline F
      → InvestigationRequest F
      → List (RedAnchor F)
      → List (TimelineEvent F)
      → List String
  unfolding recommend_from_rules similar_recommendations
  fetch_recommendations p req anchors timeline = elim p.weaviate [
    | none ↦ recommend_from_rules p req anchors timeline
    | some w ↦
        or_else (similar_recommendations (w.similar_incidents req.tenant_id req.symptoms 3))
          (recommend_from_rules p req anchors timeline)
  ]

  unfoldable pub affected_of :
      (List String → List String)
      → List String
      → List (ServiceGraphEdge F)
      → String
      → String
      → List String
  affected_of range requested graph service suggested =
      let affected =
        unique_strings
          (unique_strings (service ∷ requested) ++ neighbor_services range graph service) in
      if suggests suggested service then unique_strings (affected ++ (suggested ∷ [])) else affected

module _ {ℓ} {F : Type ℓ} ⦃f : Float F⦄ ⦃s : Strings⦄ where
  unfoldable pub causality_of :
      Pipeline F → String → List (TimelineEvent F) → List (ServiceGraphEdge F) → CausalityResult F
  causality_of p service timeline graph =
      if p.causality_engine then evaluate service timeline graph else no_result

  suggested_event : String → String → List (TimelineEvent F) → TimelineEvent F
  suggested_event suggested service timeline = record {
    time = root_event_time suggested timeline +ℤ minus_half_second;
    event = join "Causality: " (join suggested (join " precedes " service));
    service = suggested;
    severity = severity_medium;
    anomaly_score = nought;
    data_source = data_type_traces;
  }

  unfoldable pub analyze :
      Pipeline F → Surroundings → InvestigationRequest F → String → Signals F → CorrelationResult F
  unfolding suggested_event
  analyze p env req service signals =
      let ms = detect_metrics signals.metrics req.anomaly_threshold in
      let ls = detect_logs signals.logs in
      let ts = detect_traces signals.traces in
      let anchors = build_anchors service ms ls ts in
      let timeline = build_timeline ms ls ts in
      let causality = causality_of p service timeline signals.service_graph in
      let suggested = causality.suggested_service in
      let use_suggestion = suggests suggested service in
      let timeline' =
        if use_suggestion
        then timeline ++ (suggested_event suggested service timeline ∷ [])
        else timeline in
      record {
        correlation_id = join "corr-" (s.itoa env.now_id);
        incident_id = req.incident_id;
        root_cause =
            if use_suggestion
            then join suggested (join ": upstream influence on " service)
            else derive_root_cause service anchors;
        confidence = calibrate_confidence (compute_confidence ms ls ts) causality.score;
        affected_services =
            affected_of env.range req.affected_services signals.service_graph service suggested;
        recommendations = fetch_recommendations p req anchors timeline;
        red_anchors = anchors;
        timeline = append_topology_events env.now_topology timeline' service signals.service_graph;
        created_at = env.now_created;
      }

  -- the calls of `StoreCorrelation`
  unfoldable pub persist_result :
      Pipeline F → String → CorrelationResult F → List (String × CorrelationResult F)
  persist_result p tenant result = elim p.weaviate [ none ↦ [] | some w ↦ (tenant, result) ∷ [] ]

  -- the answer, and what was stored
  unfoldable pub investigate :
      Pipeline F
      → Surroundings
      → InvestigationRequest F
      → Result (CorrelationResult F) × List (String × CorrelationResult F)
  unfolding persist_result
  investigate p env req =
      let service = determine_service req in
      elim (fetch_signals p req service) [
        | err e ↦ (err e, [])
        | ok signals ↦
            let result = analyze p env req service signals in
            (ok result, persist_result p req.tenant_id result)
      ]
