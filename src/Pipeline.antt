-- ===== src/Pipeline.antt =====
-- mirador-nrt-aggregator-main/internal/pipeline/pipeline.go: receivers, processors and exporters
-- are made from the configuration and joined to pipelines. A processor is what it sends for the
-- items that it receives, which is a parameter; a map is visited in the order of its entries here.
pub mod FanOut
pub mod Subscriptions
pub mod Delivery
pub mod Progress
use Prim.Native.String.{◌++◌ as join}
use text.Mathlib.Text.{◌==◌ as str_eq}
use nrt_aggragator.Prelude.{
  Bool, true, ◌||◌, List, [], ◌∷◌, ◌++◌, map, String, if◌then◌else◌, Option, none, some, is_nil,
}
use nrt_aggragator.Prelude.Text.{is_empty}
use nrt_aggragator.Prelude.Dict.{Dict, get, put}
use nrt_aggragator.Prelude.Result.{Result, ok, err, ◌>>=◌}
use nrt_aggragator.Config.{ProcessorCfg, Value, str}
use nrt_aggragator.Telemetry.{Envelope, Aggregate, Item, envelope, aggregate}

pub record ReceiverCfg {ℓ} (F : Type ℓ) : Type ℓ where
  pub name : String
  pub type_name : String
  pub extra : Dict (Value F)

pub record ExporterCfg : Type 0 where
  pub name : String
  pub type_name : String

pub record PipelineCfg : Type 0 where
  pub receivers : List String
  pub processors : List String
  pub exporters : List String

pub record Config {ℓ} (F : Type ℓ) : Type ℓ where
  pub receivers : Dict (ReceiverCfg F)
  pub processors : Dict (ProcessorCfg F)
  pub exporters : Dict ExporterCfg
  pub pipelines : Dict PipelineCfg

-- which receiver is made, with the kind of its messages where it has one
pub data Receiver {ℓ} (F : Type ℓ) : Type ℓ where
  otlp_grpc : ReceiverCfg F → Receiver F
  otlp_http : ReceiverCfg F → Receiver F
  kafka : ReceiverCfg F → String → Receiver F
  pulsar : ReceiverCfg F → String → Receiver F
  prom_rw : ReceiverCfg F → Receiver F
  json_http : ReceiverCfg F → Receiver F
  json_kafka : ReceiverCfg F → Receiver F

-- which processor is made
pub data Processor {ℓ} (F : Type ℓ) : Type ℓ where
  spanmetrics : ProcessorCfg F → Processor F
  summarizer : ProcessorCfg F → Processor F
  iforest : ProcessorCfg F → Processor F
  vectorizer : ProcessorCfg F → Processor F
  logsum : ProcessorCfg F → Processor F
  otlplogs : ProcessorCfg F → Processor F
  filter : ProcessorCfg F → Processor F

pub data Exporter : Type 0 where
  weaviate : ExporterCfg → Exporter

module _ {ℓ} {F : Type ℓ} where
  abbrev kind_of : ReceiverCfg F → String
  kind_of rc = elim (get rc.extra "kind") [
    | some (str v) ↦ if is_empty v then "metrics" else v
    | _ ↦ "metrics"
  ]

  -- the body of the loop of `buildReceivers`
  unfoldable build_receiver : String → ReceiverCfg F → Result (Receiver F)
  build_receiver key rc =
      if str_eq rc.type_name "otlpgrpc"
      then ok (otlp_grpc rc)
      else if str_eq rc.type_name "otlphttp"
      then ok (otlp_http rc)
      else if str_eq rc.type_name "kafka"
      then ok (kafka rc (kind_of rc))
      else if str_eq rc.type_name "pulsar"
      then ok (pulsar rc (kind_of rc))
      else if str_eq rc.type_name "promremotewrite" || str_eq rc.type_name "promrw"
      then ok (prom_rw rc)
      else if str_eq rc.type_name "jsonlogs"
      then if str_eq rc.name "http"
        then ok (json_http rc)
        else if str_eq rc.name "kafka"
        then ok (json_kafka rc)
        else err (join "jsonlogs receiver name not supported: " rc.name)
      else err (join "unknown receiver type " (join rc.type_name (join " key=" key)))

  -- the body of the loop of `buildProcessors`
  unfoldable build_processor : String → ProcessorCfg F → Result (Processor F)
  build_processor key pc =
      if str_eq pc.type_name "spanmetrics"
      then ok (spanmetrics pc)
      else if str_eq pc.type_name "summarizer"
      then ok (summarizer pc)
      else if str_eq pc.type_name "iforest"
      then ok (iforest pc)
      else if str_eq pc.type_name "vectorizer"
      then ok (vectorizer pc)
      else if str_eq pc.type_name "logsum"
      then ok (logsum pc)
      else if str_eq pc.type_name "otlplogs"
      then ok (otlplogs pc)
      else if str_eq pc.type_name "filter"
      then ok (filter pc)
      else err (join "unknown processor type " (join pc.type_name (join " key=" key)))

-- The loops of the three builders: the first entry that fails ends them.
unfoldable build_all {ℓ κ} :
    {A : Type ℓ} {B : Type κ} → (String → A → Result B) → Dict A → Result (Dict B)
build_all build [] = ok []
build_all build ((key, cfg) ∷ rest) =
    build key cfg >>= (λ b. build_all build rest >>= (λ m. ok ((key, b) ∷ m)))

unfoldable build_exporter : String → ExporterCfg → Result Exporter
build_exporter key ec =
    if str_eq ec.type_name "weaviate"
    then ok (weaviate ec)
    else err (join "unknown exporter type " (join ec.type_name (join " key=" key)))

-- what is made under the key, or the error that it is missing
unfoldable find {ℓ} : {A : Type ℓ} → String → Dict A → String → Result A
find what m key = elim (get m key) [
  | none ↦ err (join what (join " not found: " key))
  | some a ↦ ok a
]

-- the bridge: what is no aggregate is dropped
unfoldable aggregates_of {ℓ} : {F : Type ℓ} → List (Item F) → List (Aggregate F)
aggregates_of [] = []
aggregates_of (aggregate a ∷ items) = a ∷ aggregates_of items
aggregates_of (item ∷ items) = aggregates_of items

-- the exporters that are started, in their order
unfoldable start_exporters : Dict Exporter → List String → Result (List Exporter)
unfolding find
start_exporters exps [] = ok []
start_exporters exps (ekey ∷ ekeys) =
    find "exporter" exps ekey >>= (λ e. start_exporters exps ekeys >>= (λ rest. ok (e ∷ rest)))

module _ {ℓ} {F : Type ℓ} (behave : Processor F → List (Item F) → List (Item F)) where
  -- the processors of a pipeline, one behind the other
  unfoldable run_processors :
      Dict (Processor F) → List String → List (Item F) → Result (List (Item F))
  unfolding find
  run_processors procs [] items = ok items
  run_processors procs (pkey ∷ pkeys) items =
      find "processor" procs pkey >>= (λ p. run_processors procs pkeys (behave p items))

  -- The exporters of a pipeline that are started, and the aggregates that reach the dispatcher for
  -- the envelopes of the pipeline. How the dispatcher hands them out is not modelled.
  unfoldable run_single_pipeline :
      PipelineCfg
      → Dict (Processor F)
      → Dict Exporter
      → List Envelope
      → Result (List Exporter × List (Aggregate F))
  unfolding run_processors aggregates_of start_exporters
  run_single_pipeline pl procs exps envs =
      run_processors procs pl.processors (map envelope envs)
      >>= (λ items. start_exporters exps pl.exporters >>= (λ es. ok (es, aggregates_of items)))

-- `m[key]` of the subscribers, where nil is no subscriber
abbrev pub subscribers_at : Dict (List String) → String → List String
subscribers_at m key = elim (get m key) [ none ↦ [] | some names ↦ names ]

-- a pipeline subscribes to its receivers, once for each time that it names one
unfoldable pub subscribe : String → List String → Dict (List String) → Dict (List String)
subscribe pname [] subs = subs
subscribe pname (rkey ∷ rkeys) subs =
    subscribe pname rkeys (put subs rkey (subscribers_at subs rkey ++ (pname ∷ [])))

unfoldable pub subscribe_all : Dict PipelineCfg → Dict (List String) → Dict (List String)
unfolding subscribe
subscribe_all [] subs = subs
subscribe_all ((pname, p) ∷ rest) subs = subscribe_all rest (subscribe pname p.receivers subs)

module _ {ℓ} {F : Type ℓ} where
  -- the receivers that are started, each with the pipelines to which it fans out
  unfoldable start_receivers :
      Dict (Receiver F) → Dict (List String) → Result (List (Receiver F × List String))
  unfolding find
  start_receivers factory [] = ok []
  start_receivers factory ((rkey, subs) ∷ rest) =
      find "receiver" factory rkey
      >>= (λ r. start_receivers factory rest >>= (λ started. ok ((r, subs) ∷ started)))

  -- each pipeline with processors and exporters of its own
  unfoldable start_pipelines :
      Config F → Dict PipelineCfg → Result (Dict (Dict (Processor F) × Dict Exporter))
  unfolding build_all build_processor build_exporter
  start_pipelines cfg [] = ok []
  start_pipelines cfg ((pname, p) ∷ rest) = build_all build_processor cfg.processors >>= (λ procs.
      build_all build_exporter cfg.exporters
      >>= (λ exps. start_pipelines cfg rest >>= (λ done. ok ((pname, (procs, exps)) ∷ done))))

  -- `BuildAndRun` up to the goroutines that it starts: the receivers, and the pipelines
  unfoldable build_and_run :
      Config F
      → Result (List (Receiver F × List String) × Dict (Dict (Processor F) × Dict Exporter))
  unfolding build_all build_receiver subscribe_all start_receivers start_pipelines
  build_and_run cfg = build_all build_receiver cfg.receivers >>= (λ factory.
      start_receivers factory (subscribe_all cfg.pipelines [])
      >>= (λ started. start_pipelines cfg cfg.pipelines >>= (λ pls. ok (started, pls))))
