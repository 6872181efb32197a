-- ===== src/Tests/Vectors.antt =====
-- The theorem on the vectorizer, at a concrete input.
use nrt_aggragator.Prelude.{ℕ, refl, List, [], ◌∷◌, none, some, true}
use nrt_aggragator.Prelude.Int.{pos}
use nrt_aggragator.Telemetry.{Aggregate, Item, aggregate, other}
use nrt_aggragator.IForest.Stream.{Pairwise}
use nrt_aggragator.Vectorizer.{Tools, Processor, no_answer}
use nrt_aggragator.Vectorizer.Stream.{start}
use nrt_aggragator.Vectorizer.Revectored.{Revectored, start-Revectored}
use nrt_aggragator.Tests.Fixed.{Fixed, fixed_float, plain_strings}

-- a text is one word, and its hash is 3
abbrev tools : Tools Fixed ℕ
tools = record {
  single = λ x. x;
  post = λ url model prompt w. (no_answer, w);
  split = λ s. s ∷ [];
  fnv_64a = λ s. 3;
  fnv_64 = λ s. 1;
  format_time = λ t. "";
}

abbrev processor : Processor Fixed
processor = record {
  mode = "hash";
  allow_fallback = true;
  ollama_endpoint = "";
  ollama_model = "";
  timeout_ms = 5000;
  retries = pos 2;
  hash_dim = 2;
  hash_ngrams = 2;
  lowercase = true;
  stopwords = [];
  logs_include = [];
  p90_approx = true;
  ema_alpha = some (pos 500_000);
  pca = none;
  ema = [];
  trace_attrs = [];
  trace_max = 6;
}

abbrev window : Aggregate Fixed
window = record {
  service = "api";
  window_start = pos 0;
  window_end = pos 60;
  labels = ("source", "metrics") ∷ [];
  locator = "{}";
  count = 4;
  rps = some (pos 1);
  error_rate = some (pos 0);
  p50 = some (pos 3);
  p95 = some (pos 4);
  p99 = some (pos 5);
  anomaly_score = some (pos 0);
  summary_text = "calm";
  vector = [];
}

abbrev items : List (Item Fixed)
items = aggregate window ∷ other 5 ∷ aggregate (record window { labels = [] }) ∷ []

start-Revectored_example : Pairwise (Revectored tools 2 none) items (start tools processor 0 items)
start-Revectored_example = start-Revectored tools processor 0 items refl
