-- ===== src/Tests/Nrt.antt =====
-- The theorems about the aggregator, and about the mined patterns.
use nrt_aggragator.Prelude.Text.{to_lower, map_chars}
use nrt_aggragator.Prelude.{
  ℕ, ◌+◌, ◌≤◌, ◌≡◌, refl, true, false, List, [], ◌∷◌, String, some, none, arith, All, length, set,
  replicate,
}
use nrt_aggragator.Prelude.Int.{pos}
use nrt_aggragator.Prelude.Dict.{Dict, get, put}
use nrt_aggragator.Prelude.Sort.{sort}
use nrt_aggragator.Models.{RedAnchor, CorrelationResult}
use nrt_aggragator.Patterns.{mine}
use nrt_aggragator.Patterns.Mined.{IsMined, mine-IsMined}
use nrt_aggragator.Config.{ProcessorCfg}
use nrt_aggragator.Telemetry.{Aggregate, Item, envelope, aggregate, other}
use nrt_aggragator.IForest
use nrt_aggragator.IForest.{Node, Tree, Forest, Stats, path_length}
use nrt_aggragator.IForest.Path.{leaf, split, path_length-Encodes}
use nrt_aggragator.IForest.Stream.{Pairwise, Rescored, apply-Isolated, start-Rescored}
use nrt_aggragator.SpanMetrics.{Span, new, bucket_counts, build_dimensions, build_requests_total}
use nrt_aggragator.SpanMetrics.Histogram.{IsBucket, total, bucket_counts_exact}
use nrt_aggragator.SpanMetrics.Labels.{count_key, build_dimensions-repeats}
use nrt_aggragator.Summarizer.{TDigest, Svc, is_ok_status, consume_metric}
use nrt_aggragator.Summarizer.Counters.{deltas, steps, last_of, deltas-steps}
use nrt_aggragator.Summarizer.Stream.{Loop, Input, message, tick, Decoders, run}
use nrt_aggragator.Summarizer.Window.{InWindows, run-InWindows}
use nrt_aggragator.Summarizer.Spans.{consume_metric-fails}
use nrt_aggragator.Tests.Fixed.{Fixed, fixed_float, Fixed-IsOrdered, plain_strings}

abbrev number : ℕ → Fixed
number n = fixed_float.decimal n 0

abbrev anchor : RedAnchor Fixed
anchor = record {
  service = "api";
  selector = "trace:query";
  data_type = "traces";
  timestamp = pos 20;
  anomaly_score = number 4;
  threshold = number 2;
}

abbrev correlation : List String → CorrelationResult Fixed
correlation services = record {
  correlation_id = "c";
  incident_id = "i";
  root_cause = "api";
  confidence = number 1;
  affected_services = services;
  red_anchors = anchor ∷ [];
  timeline = [];
  recommendations = [];
  created_at = pos 30;
}

abbrev history : List (CorrelationResult Fixed)
history = correlation ("api" ∷ "db" ∷ []) ∷ correlation ("api" ∷ []) ∷ []

mine-IsMined_example : All (IsMined history) (mine (λ keys. keys) true history).0
mine-IsMined_example = mine-IsMined (λ keys. keys) true history

mined_runs : length (mine (λ keys. keys) true history).0 ≡ 2
unfolding mine sort put get
mined_runs = refl

abbrev inner : Node Fixed
inner = record { feature = pos 0; threshold = number 5; left = pos 1; right = pos 2; leaf = false }

abbrev end_node : Node Fixed
end_node = record {
  feature = pos 0;
  threshold = number 0;
  left = pos 0;
  right = pos 0;
  leaf = true;
}

abbrev tree : Tree Fixed
tree = record { nodes = inner ∷ end_node ∷ end_node ∷ [] }

path_length-Encodes_example : path_length tree (number 3 ∷ []) ≡ number 1
path_length-Encodes_example =
    path_length-Encodes tree (number 3 ∷ []) (split (pos 0) (number 5) leaf leaf)
      (inner, refl, refl, refl, refl, (end_node, refl, refl), (end_node, refl, refl)) (omega arith)

abbrev stats : Stats Fixed
stats = record { win_sec = pos 3600; data_of = []; last_trim = pos 0 }

abbrev window : Aggregate Fixed
window = record {
  service = "api";
  window_start = pos 0;
  window_end = pos 60;
  labels = [];
  locator = "{}";
  count = 3;
  rps = number 1;
  error_rate = number 0;
  p50 = number 1;
  p95 = number 2;
  p99 = number 3;
  anomaly_score = number 0;
  summary_text = "";
  vector = [];
}

abbrev items : List (Item Fixed)
items = aggregate window ∷ other 1 ∷ []

abbrev scorer : IForest.Processor Fixed
scorer = record {
  feats = "p99" ∷ [];
  norm_mode = "zscore";
  stats = stats;
  forest = some (record { version = "iforest-v1"; trees = tree ∷ [] });
  subsample_n = number 256;
}

start-Rescored_example : Pairwise Rescored items (IForest.start scorer items)
start-Rescored_example = start-Rescored Fixed-IsOrdered scorer items

abbrev bounds : List Fixed
bounds = number 1 ∷ number 2 ∷ []

bucket_counts_exact_example :
    (i : ℕ) × IsBucket bounds (number 2) i
    × (bucket_counts bounds (number 2) ≡ set (replicate (length bounds + 1) 0) i 1)
    × (length (bucket_counts bounds (number 2)) ≡ length bounds + 1)
    × (total (bucket_counts bounds (number 2)) ≡ 1)
bucket_counts_exact_example = bucket_counts_exact bounds (number 2) refl

abbrev cfg : ProcessorCfg Fixed
cfg = record {
  name = "spanmetrics";
  type_name = "spanmetrics";
  window_seconds = pos 60;
  quantiles = [];
  features = [];
  n_trees = pos 0;
  threshold = number 0;
  extra = [];
}

abbrev span : Span
span = record {
  kind = "span_kind_server";
  status_code = "status_code_unset";
  start_time = 5;
  end_time = 9;
  attributes = [];
  events = record { name = "exception"; attributes = [] } ∷ [];
}

abbrev service_attrs : Dict String
service_attrs = ("service.name", "api") ∷ []

build_dimensions-repeats_example :
    2 ≤ count_key "service.name" (build_dimensions (new cfg) span service_attrs)
unfolding get
build_dimensions-repeats_example =
    build_dimensions-repeats cfg span service_attrs "api" refl refl refl

instance abbrev digest : TDigest Fixed (List Fixed)
digest = record { empty = []; add = λ td x. x ∷ td; size = λ td. length td; quantile = λ td q. q }

abbrev svc : Svc Fixed (List Fixed)
svc = record { td = []; req = number 0; ok = number 0; err = number 0; count = 0; labels = [] }

deltas-steps_example :
    deltas [] "k" (number 3 ∷ number 5 ∷ number 1 ∷ [])
    ≡ steps (last_of [] "k") (number 3 ∷ number 5 ∷ number 1 ∷ [])
deltas-steps_example = deltas-steps [] "k" (number 3 ∷ number 5 ∷ number 1 ∷ [])

consume_metric-fails_example :
    (done : Svc Fixed (List Fixed)) × (consume_metric 50 service_attrs
        (build_requests_total 5 9 (build_dimensions (new cfg) span service_attrs))
        ([], svc)
      ≡ ([], done))
    × (done.req ≡ fixed_float.add (number 0) (number 1))
    × (done.err ≡ fixed_float.add (number 0) (number 1))
    × (done.ok ≡ number 0)
unfolding to_lower map_chars is_ok_status
consume_metric-fails_example =
    consume_metric-fails cfg span service_attrs 5 9 50 service_attrs [] svc refl refl

abbrev decoders : Decoders Fixed
decoders = record {
  decode_otlp = λ raw. some (record { resource = none; scope_metrics = [] } ∷ []);
  decode_prom_rw = λ raw. none;
  parse_float = λ text. none;
  range = λ keys. keys;
}

abbrev loop : Loop Fixed (List Fixed)
loop = record {
  processor = record {
    window_sec = 60;
    svc_attr = "service.name";
    bucket_sample_cap = 50;
    state = [];
    last = [];
  };
  win_start = 120;
}

abbrev inputs : List (Input Fixed)
inputs =
    message (envelope (record { kind = "metrics"; bytes = []; attrs = []; ts_unix = pos 0 }))
    ∷ tick 185
    ∷ message (other 4)
    ∷ tick 190
    ∷ []

run-InWindows_example : InWindows 60 120 (run decoders loop inputs)
run-InWindows_example = run-InWindows decoders inputs loop tt (omega arith) refl

abbrev z_done : Stats Fixed × List Fixed
z_done = IForest.apply stats "api" (pos 9) (number 3 ∷ [])

apply-Isolated_example :
    (length z_done.1 ≡ 1)
    × ((ws : List (IForest.Welford Fixed)) × (get z_done.0.data_of "api" ≡ some ws)
        × (length ws ≡ 1))
    × (get z_done.0.data_of "db" ≡ get stats.data_of "db")
apply-Isolated_example = apply-Isolated stats "api" (pos 9) (number 3 ∷ []) "db" refl
