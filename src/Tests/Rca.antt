-- ===== src/Tests/Rca.antt =====
-- The theorems about the root cause analysis.
use nrt_aggragator.Prelude.{
  ℕ, ◌≡◌, refl, true, false, not, ◌&&◌, ◌||◌, List, [], ◌∷◌, String, some, any,
}
use nrt_aggragator.Prelude.Int.{pos, ◌≤ℤ◌}
use nrt_aggragator.Prelude.Text.{is_empty, equal_fold}
use nrt_aggragator.Models.{TimelineEvent, RedAnchor, ServiceGraphEdge, InvestigationRequest}
use nrt_aggragator.Latency.{LatencyTracker, new_latency_tracker, percentile, min, max}
use nrt_aggragator.Latency.Window.{samples-observe_all, observe_all}
use nrt_aggragator.Latency.Percentile.{percentile_bounds}
use nrt_aggragator.Causality.{root_event_time, evaluate}
use nrt_aggragator.Causality.Score.{IsScore, evaluate-IsScore}
use nrt_aggragator.Causality.Upstream.{Upstream, evaluate-Upstream}
use nrt_aggragator.Recommend.{Rule, is_seen}
use nrt_aggragator.Recommend.Unique.{IsUnique}
use nrt_aggragator.Extractors.{MetricAnomaly}
use nrt_aggragator.Engine.Steps.{scores_more, all_anchors, build_anchors, calibrate_confidence}
use nrt_aggragator.Prelude.Ranking.{IsTop}
use nrt_aggragator.Engine.Anchors.{build_anchors-IsTop}
use nrt_aggragator.Engine.Services.{joins, affected_of_exact}
use nrt_aggragator.Engine.Outcome.{Answers, investigate-Answers}
use nrt_aggragator.Prelude.Result.{ok, err}
use nrt_aggragator.Engine.{
  CoreClient, Pipeline, Surroundings, Signals, suggests, affected_of, investigate,
}
use nrt_aggragator.Tests.Fixed.{Fixed, fixed_float, Fixed-IsOrdered, plain_strings}

abbrev number : ℕ → Fixed
number n = fixed_float.decimal n 0

abbrev edge : String → String → ℕ → ServiceGraphEdge Fixed
edge a b rate = record { source = a; target = b; call_rate = number rate; error_rate = number 0 }

abbrev graph : List (ServiceGraphEdge Fixed)
graph = edge "db" "api" 3 ∷ edge "api" "web" 9 ∷ edge "cache" "api" 7 ∷ []

abbrev event : String → ℕ → TimelineEvent Fixed
event service t = record {
  time = pos t;
  event = "Slow span";
  service = service;
  severity = "high";
  anomaly_score = number 4;
  data_source = "traces";
}

abbrev events : List (TimelineEvent Fixed)
events = event "db" 10 ∷ event "api" 20 ∷ event "cache" 15 ∷ []

abbrev anchor : RedAnchor Fixed
anchor = record {
  service = "api";
  selector = "trace:query";
  data_type = "traces";
  timestamp = pos 20;
  anomaly_score = number 4;
  threshold = number 2;
}

abbrev request : InvestigationRequest Fixed
request = record {
  incident_id = "i";
  symptoms = "slow" ∷ [];
  time_range = record { start = pos 0; end = pos 100 };
  affected_services = "api" ∷ [];
  anomaly_threshold = number 0;
  tenant_id = "t";
}

abbrev rules : List Rule
rules =
    record {
      id = "r";
      when = record { service = "api"; severity = ""; selector_contains = "query" ∷ [] };
      recommendations = "add an index" ∷ "add an index" ∷ [];
    }
    ∷ []

abbrev client : CoreClient Fixed
client = record {
  fetch_metric_series = λ t s a b. ok (record { timestamp = pos 3; value = number 1 } ∷ []);
  fetch_log_entries = λ t s a b. ok [];
  fetch_trace_spans = λ t s a b. ok [];
  fetch_service_graph = λ t a b. err "no graph";
}

abbrev pub pipeline : Pipeline Fixed
pipeline = record {
  core_client = some client;
  weaviate = some (record { similar_incidents = λ t s n. err "down" });
  rules_engine = some rules;
  causality_engine = true;
}

abbrev pub env : Surroundings
env = record { now_topology = pos 5; now_id = pos 6; now_created = pos 7; range = λ keys. keys }

abbrev signals : Signals Fixed
signals = record {
  service_graph = [];
  metrics = record { timestamp = pos 3; value = number 1 } ∷ [];
  logs = [];
  traces = [];
}

abbrev metric : ℕ → MetricAnomaly Fixed
metric n = record { timestamp = pos n; value = number n; score = number n; threshold = number 2 }

abbrev metrics : List (MetricAnomaly Fixed)
metrics = metric 3 ∷ metric 9 ∷ metric 4 ∷ metric 7 ∷ metric 5 ∷ metric 8 ∷ []

samples-observe_all_example :
    (observe_all (new_latency_tracker (pos 2)) (pos 5 ∷ pos 9 ∷ pos 7 ∷ [])).samples
    ≡ pos 9 ∷ pos 7 ∷ []
samples-observe_all_example = samples-observe_all (pos 2) (pos 5 ∷ pos 9 ∷ pos 7 ∷ [])

abbrev tracker : LatencyTracker
tracker = record { samples = pos 5 ∷ pos 9 ∷ pos 7 ∷ []; max_size = 4 }

percentile_bounds_example :
    (min tracker.samples ≤ℤ percentile tracker (number 95))
    × (percentile tracker (number 95) ≤ℤ max tracker.samples)
percentile_bounds_example = percentile_bounds tracker (number 95) (λ e. cc)

evaluate-IsScore_example : IsScore (evaluate "api" events graph).score
evaluate-IsScore_example = evaluate-IsScore Fixed-IsOrdered "api" events graph

suggested_runs : (evaluate "api" events graph).suggested_service ≡ "cache"
unfolding evaluate root_event_time equal_fold
suggested_runs = refl

evaluate-Upstream_example : Upstream "api" graph (evaluate "api" events graph).suggested_service
evaluate-Upstream_example = evaluate-Upstream "api" events graph (rw suggested_runs (λ e. cc))

build_anchors-IsTop_example :
    IsTop scores_more 5 (all_anchors "api" metrics [] []) (build_anchors "api" metrics [] [])
unfolding all_anchors nrt_aggragator.Engine.Steps.metric_anchor
build_anchors-IsTop_example =
    build_anchors-IsTop metrics [] [] Fixed-IsOrdered "api"
      (refl, (refl, (refl, (refl, (refl, (refl, tt))))))

affected_of_exact_example :
    let affected = affected_of env.range ("web" ∷ []) graph "api" "cache" in
    IsUnique affected
    × (is_seen affected "db" ≡ (
        not (is_empty "db")
        && ((false || false) || any (joins "api" "db") graph || (suggests "cache" "api" && false))))
unfolding is_seen
affected_of_exact_example =
    affected_of_exact (λ keys. keys) (λ keys j. refl) ("web" ∷ []) graph "api" "cache" "db"

investigate-Answers_example : Answers pipeline env request (investigate pipeline env request)
investigate-Answers_example = investigate-Answers Fixed-IsOrdered pipeline env request
