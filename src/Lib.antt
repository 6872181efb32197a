-- ===== src/Lib.antt =====
-- Verification of the Go core of the mirador stack: the root cause analysis service
-- (mirador-rca-main) and the near-real-time aggregator (mirador-nrt-aggregator-main).
--
-- The aggregator passes envelopes of telemetry through a chain of processors. spanmetrics turns
-- spans into request, duration and error metrics; summarizer makes windows per service of metrics;
-- logsum makes windows of logs; iforest scores the windows, vectorizer gives them vectors, and filter
-- drops what an expression does not match. A receiver fans out to the pipelines that name it. The analysis
-- service answers an investigation: it fetches the signals of a service from mirador-core, detects
-- anomalies in them, ranks anchors and a timeline, weighs the service graph for an upstream cause,
-- recommends by rules, and stores the result in Weaviate, from where similar incidents, patterns
-- and pages of the history are read; a miner makes failure patterns of stored results, and a cache
-- is kept in a Valkey server.
--
-- Which file models what (paths from the root of the repository):
--   Models      mirador-rca-main/internal/models, and the signals of internal/repo/mirador_core.go
--   Latency     internal/utils/latency.go: Observe, Count, Min, Max, Percentile are observe, count,
--               min, max, percentile; a method is one critical section
--   Extractors  internal/extractors: the three Detect methods are detect_metrics, detect_logs and
--               detect_traces
--   Causality   internal/engine/causality.go: Evaluate is evaluate, its loop weigh_edges
--   Recommend   internal/engine/recommend.go: Recommend is recommend
--   Engine      internal/engine/pipeline.go: Investigate, FetchSignals, Analyze and PersistResult
--               are investigate, fetch_signals, analyze and persist_result; Engine.Steps has the
--               steps on anomalies, Engine.Topology those on the service graph
--   Patterns    internal/patterns/miner.go: Mine is mine
--   Cache       internal/cache/valkey.go: readReply and write are read_reply and write;
--               Cache.Commands has Get, Set, SetNX, Del, ping, bootstrap and withConn, which are
--               get_key, set_key, set_nx, del, ping, bootstrap and with_conn
--   Telemetry   mirador-nrt-aggregator-main/internal/model, and decoded messages
--   Config      internal/config/config.go: splitKey, the typed extras, the normalisation of Load
--   IForest     internal/processors/iforest: pathLength, score, apply and Start are path_length,
--               score, apply and start
--   SpanMetrics internal/processors/spanmetrics: tracesToResourceMetrics and Start are
--               traces_to_resource_metrics and step
--   Filter      internal/processors/filter: eval, evalEnvelope, evalAggregate and Start are eval,
--               eval_envelope, eval_aggregate and start
--   Summarizer  internal/processors/summarizer: the OTLP side; Summarizer.Stream has Prometheus
--               remote write, flush and the loop of Start, which are flush, step and run
--   LogSum      internal/processors/logsum: consume is consume; LogSum.Stream has New, flush and the
--               loop of Start, which are new, flush, step and run
--   Vectorizer  internal/processors/vectorizer: embedHashing, embedOllama and the texts are
--               embed_hashing, embed_ollama, build_logs_text and build_traces_text;
--               Vectorizer.Stream has the vector of metrics and Start, Vectorizer.Settings New
--   Pipeline    internal/pipeline/pipeline.go: BuildAndRun up to its goroutines is build_and_run,
--               runSinglePipeline is run_single_pipeline; Pipeline.FanOut has the goroutine that
--               fans a receiver out, as a step relation
--   Repo        mirador-rca-main/internal/repo/weaviate_repo.go: the objects that are stored;
--               Repo.Records reads them, Repo.Queries and Repo.Synthetic have the texts and the
--               made-up answers, Repo.Client and Repo.Reads the methods
--   Api         mirador-rca-main/internal/api/handlers.go: the messages of internal/grpc/proto and
--               their conversions, FromProto and ToProto, are from_proto and to_proto
--   Service     internal/services/rca_service.go: the handlers, InvestigateIncident as
--               investigate_incident, and ObserveInvestigation of internal/metrics/metrics.go
--   Prelude     shared tests, lists, sorting, maps, texts, floats; Tests has concrete parameters
--               and runs
-- Child modules named for a property hold its proof.
--
-- How Go is read. A float64 is an element of any type with the operations of Prelude.Float; the
-- laws of IEEE 754 comparisons, NaN included, are IsOrdered, a premise where they are needed, and
-- Tests.Fixed has a type that meets them. Texts are sequences of characters; case tables, decimal
-- digits and the trimming of white space are parameters (Prelude.Text.Strings). A map is an
-- association list; the order in which a range visits it is a parameter. An int and a time do not
-- wrap, unsigned 64-bit counters and differences do. sort.Slice is taken to be the stable sort. A
-- select loop is a function on the sequence of what it selects, up to any end of it. Clients,
-- decoders, the t-digest, CEL programs and the clock are parameters. Logging is left out.
--
-- Every loop is structural recursion, so all of them end. The walk through an isolation tree is
-- bounded by 64 steps as in the source, the attempts on a connection by the configured number.
--
-- Not modelled: the servers, the client of mirador-core, the receivers and exporters, which are
-- input and output; the OTLP logs processor, which comes next; the closing of channels, and the
-- dispatcher between the exporters of a pipeline; the end of a context but where a receiver is
-- fanned out; the reading of files and of configuration for CEL and for forests; generated code,
-- and the Grafana plugin.
pub mod Api
pub mod Cache
pub mod Causality
pub mod Config
pub mod Engine
pub mod Extractors
pub mod Filter
pub mod IForest
pub mod Latency
pub mod LogSum
pub mod Models
pub mod Patterns
pub mod Pipeline
pub mod Prelude
pub mod Recommend
pub mod Repo
pub mod Service
pub mod SpanMetrics
pub mod Summarizer
pub mod Telemetry
pub mod Tests
pub mod Vectorizer
