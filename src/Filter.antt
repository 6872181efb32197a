-- ===== src/Filter.antt =====
-- mirador-nrt-aggregator-main/internal/processors/filter/filter.go: what passes a CEL filter. CEL,
-- JSON and the clock are parameters: a program maps an activation to the value it evaluates to, and
-- `none` is an evaluation that fails.
pub mod Kept
use text.Mathlib.Text.{◌==◌ as str_eq}
use nrt_aggragator.Prelude.{
  ℕ, Bool, true, false, not, ◌&&◌, ◌||◌, List, [], ◌∷◌, ◌++◌, String, if◌then◌else◌, Option, none,
  some,
}
use nrt_aggragator.Prelude.Int.{ℤ, pos}
use nrt_aggragator.Prelude.Text.{Strings, to_lower}
use nrt_aggragator.Prelude.Dict.{Dict}
use nrt_aggragator.Prelude.Float.{Float, nought, of_ℕ}
use nrt_aggragator.Config.{ProcessorCfg, extra_string, extra_bool}
use nrt_aggragator.Telemetry.{Bytes, Envelope, Aggregate, Item, envelope, aggregate, other}

-- The value of a variable; `json` is a decoded JSON object, and `item_value` the map of an
-- envelope's kind, time and attributes.
pub data Variable {ℓ} (F J : Type ℓ) : Type ℓ where
  text_value : String → Variable F J
  int_value : ℤ → Variable F J
  float_value : F → Variable F J
  map_value : Dict String → Variable F J
  json : J → Variable F J
  item_value : String → ℤ → Dict String → Variable F J

abbrev pub Activation {ℓ} : Type ℓ → Type ℓ → Type ℓ
Activation F J = List (String × Variable F J)

-- a Boolean, or a value of another type
pub data Evaluated : Type 0 where
  bool_value : Bool → Evaluated
  other_value : Evaluated

pub record Processor {ℓ} (F J : Type ℓ) : Type ℓ where
  pub stage : String
  pub on : String
  pub drop_non_matching : Bool
  pub program : Activation F J → Option Evaluated

module _ {ℓ} {F J : Type ℓ} where
  -- Fail-open: an evaluation that fails, or gives no Boolean, keeps the item.
  unfoldable pub eval : Processor F J → Activation F J → Bool
  eval p vars = elim (p.program vars) [ some (bool_value b) ↦ b | _ ↦ true ]

  module _ ⦃f : Float F⦄ (decode : Bytes → Option J) (now : ℤ) where
    -- the variables of an envelope beside the two times
    abbrev pub envelope_variables : String → Envelope → Activation F J
    envelope_variables on e =
        if str_eq on "metrics"
        then ("kind", text_value e.kind)
          ∷ ("attrs", map_value e.attrs)
          ∷ ("metric_name", text_value "")
          ∷ ("labels", map_value [])
          ∷ ("resource", map_value [])
          ∷ []
        else if str_eq on "logs"
        then ("log", elim (decode e.bytes) [ none ↦ map_value [] | some m ↦ json m ]) ∷ []
        else if str_eq on "traces"
        then ("kind", text_value e.kind)
          ∷ ("attributes", map_value [])
          ∷ ("resource", map_value [])
          ∷ ("span_name", text_value "")
          ∷ ("duration_ms", float_value nought)
          ∷ []
        else ("item", item_value e.kind e.ts_unix e.attrs) ∷ []

    unfoldable pub eval_envelope : Processor F J → Envelope → Bool
    unfolding eval
    eval_envelope p e =
        eval p (
          ("now_unix", int_value now)
          ∷ ("ts_unix", int_value e.ts_unix)
          ∷ envelope_variables p.on e)

    abbrev pub aggregate_variables : Aggregate F → Activation F J
    aggregate_variables a =
        ("now_unix", int_value now)
        ∷ ("service", text_value a.service)
        ∷ ("window_start", int_value a.window_start)
        ∷ ("window_end", int_value a.window_end)
        ∷ ("p50", float_value a.p50)
        ∷ ("p95", float_value a.p95)
        ∷ ("p99", float_value a.p99)
        ∷ ("rps", float_value a.rps)
        ∷ ("error_rate", float_value a.error_rate)
        ∷ ("anomaly_score", float_value a.anomaly_score)
        ∷ ("count", float_value (of_ℕ a.count))
        ∷ ("labels", map_value a.labels)
        ∷ ("summary", text_value a.summary_text)
        ∷ []

    unfoldable pub eval_aggregate : Processor F J → Aggregate F → Bool
    unfolding eval
    eval_aggregate p a = eval p (aggregate_variables a)

    -- what is sent for one item
    unfoldable pub step : Processor F J → Item F → List (Item F)
    unfolding eval_envelope eval_aggregate
    step p (envelope e) =
        if not (str_eq p.stage "pre")
        then envelope e ∷ []
        else if eval_envelope p e || not p.drop_non_matching
        then envelope e ∷ []
        else []
    step p (aggregate a) =
        if not (str_eq p.stage "post") && not (str_eq p.on "aggregates")
        then aggregate a ∷ []
        else if eval_aggregate p a || not p.drop_non_matching
        then aggregate a ∷ []
        else []
    step p (other n) = other n ∷ []

  -- The loop; the clock is read for each item.
  module _ ⦃f : Float F⦄ (decode : Bytes → Option J) where
    unfoldable pub start : Processor F J → List (ℤ × Item F) → List (Item F)
    unfolding step
    start p [] = []
    start p ((now, item) ∷ items) = step decode now p item ++ start p items
