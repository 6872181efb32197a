-- ===== src/Tests/Flow.antt =====
-- The theorems on the log summarizer and on pipelines, at concrete inputs.
use nrt_aggragator.Prelude.{
  ℕ, ◌≡◌, refl, List, [], ◌∷◌, none, some, arith, length, All, suc, ◌+◌, ◌*◌, ◌/◌, ◌≤◌, String,
}
use nrt_aggragator.Prelude.Int.{pos}
use nrt_aggragator.Prelude.Dict.{Dict, get}
use nrt_aggragator.Prelude.Float.{of_ℕ}
use nrt_aggragator.Telemetry.{Bytes, envelope, other}
use nrt_aggragator.LogSum
use nrt_aggragator.LogSum.{Decoders, WState, consume, string_value, float64}
use nrt_aggragator.LogSum.Counts.{Counted, entries_of, consume_all, consume_all-counts}
use nrt_aggragator.LogSum.Stream
use nrt_aggragator.LogSum.Stream.{Loop, arrived, ticked, top_values}
use nrt_aggragator.LogSum.Window.{Succeeds, IsTruncating, run-Succeeds}
use nrt_aggragator.Prelude.Ranking.{IsTop}
use nrt_aggragator.LogSum.Stream.{more}
use nrt_aggragator.LogSum.Top.{counted_values, top_values-IsTop}
use nrt_aggragator.Summarizer.Window.{InWindows}
use nrt_aggragator.Pipeline.{PipelineCfg, subscribers_at, subscribe_all}
use nrt_aggragator.Pipeline.FanOut.{
  own, foreign, own_of, holding, Fan, subscribers, buffer_size, crosses, take_next, send,
  served_moves, Reach, start, later, init,
}
use nrt_aggragator.Pipeline.Delivery.{IsServed, Reach-IsServed, Reach-IsHeldUp}
use nrt_aggragator.Pipeline.Progress.{IsComplete, Reach-IsComplete}
use nrt_aggragator.Pipeline.Subscriptions.{subscriptions, subscribe_all_exact}
use nrt_aggragator.Tests.Fixed.{Fixed, fixed_float, plain_strings}

-- one log, of the service "api" with an error that took 12
abbrev decoders : Decoders Fixed
decoders = record {
  decode = λ raw. some (
      ("service", string_value "api")
      ∷ ("level", string_value "error")
      ∷ ("ms", float64 (some (pos 12)))
      ∷ []);
  shortest = λ x. "12";
  parse_float = λ t. none;
  range = λ keys. keys;
}

abbrev log_processor : LogSum.Processor Fixed
log_processor = record {
  win_sec = 60;
  svc_key = "service";
  lvl_key = "level";
  err_levels = "error" ∷ [];
  user_keys = "user" ∷ [];
  quant_field = "ms";
  reservoir_last = 1;
  top_keys = "level" ∷ [];
  top_limit = pos 5;
  state = [];
}

abbrev logs : List (ℕ × Bytes)
logs = (5, 1 ∷ []) ∷ (6, 2 ∷ []) ∷ (7, 3 ∷ []) ∷ []

consume_all-counts_example :
    Counted decoders log_processor
      (entries_of decoders log_processor "api" logs)
      (get (consume_all decoders log_processor 120 logs).state "api")
consume_all-counts_example = consume_all-counts decoders log_processor 120 logs "api" refl

abbrev log_inputs : List (LogSum.Stream.Input Fixed)
log_inputs =
    arrived 5 (envelope (record { kind = "json_logs"; bytes = []; attrs = []; ts_unix = pos 0 }))
    ∷ ticked 185
    ∷ arrived 6 (other 3)
    ∷ []

-- the integer part of a fraction in millionths
trunc_fraction :
    (c k : ℕ)
    → c * (k * 1_000_000) / 1_000_000 / 1_000_000 ≤ k
    → (i : ℕ) × (fixed_float.to_int (fixed_float.mul (some (pos c)) (of_ℕ k)) ≡ pos i) × (i ≤ k)
trunc_fraction c k small = (c * (k * 1_000_000) / 1_000_000 / 1_000_000, ground arith, small)

Fixed-IsTruncating : IsTruncating Fixed
Fixed-IsTruncating k = (
  trunc_fraction 500_000 k (omega arith),
  (trunc_fraction 950_000 k (omega arith), (trunc_fraction 990_000 k (omega arith), tt)),
)

run-Succeeds_example :
    Succeeds (InWindows 60 120) (
      LogSum.Stream.run decoders (record { processor = log_processor; win_start = 120 }) log_inputs)
run-Succeeds_example =
    run-Succeeds Fixed-IsTruncating decoders log_inputs
      (record { processor = log_processor; win_start = 120 }) 5 tt refl (omega arith) refl

top_values-IsTop_example :
    Succeeds
      (IsTop more 1 (counted_values (λ keys. keys) (("a", 2) ∷ ("b", 7) ∷ [])))
      (top_values (λ keys. keys) (pos 1) (("a", 2) ∷ ("b", 7) ∷ []))
top_values-IsTop_example = top_values-IsTop (λ keys. keys) 1 (("a", 2) ∷ ("b", 7) ∷ [])

-- Two subscribers; the first of them has the first envelope, and one of another receiver.
abbrev envelopes : List ℕ
envelopes = 10 ∷ 20 ∷ []

abbrev fan : Fan ℕ
fan = record {
  todo = 20 ∷ [];
  hand = holding 10;
  served = record { queue = own 10 ∷ foreign 99 ∷ []; read = [] } ∷ [];
  waiting = record { queue = []; read = [] } ∷ [];
}

fan_reached : Reach (init envelopes 2) fan
fan_reached =
    later (later (later start (take_next 10 (20 ∷ []) _)) (send 10 (20 ∷ []) [] _ _ (omega arith)))
      (served_moves (20 ∷ []) (holding 10) _ (crosses 99 _ [] (omega arith)))

Reach-IsServed_example : (length (subscribers fan) ≡ 2) × All (IsServed envelopes) (subscribers fan)
Reach-IsServed_example = Reach-IsServed envelopes 2 fan_reached

Reach-IsHeldUp_example :
    All
      (λ a.
        All
          (λ b.
            length (own_of a.read) + length (own_of a.queue)
            ≤ length (own_of b.read) + suc buffer_size)
          (subscribers fan))
      (subscribers fan)
Reach-IsHeldUp_example = Reach-IsHeldUp envelopes 2 fan_reached

Reach-IsComplete_example : (u : Fan ℕ) × Reach fan u × IsComplete envelopes 2 u
Reach-IsComplete_example = Reach-IsComplete envelopes 2 fan_reached tt

abbrev of_receivers : List String → PipelineCfg
of_receivers rkeys = record { receivers = rkeys; processors = "p" ∷ []; exporters = "w" ∷ [] }

abbrev pipelines : Dict PipelineCfg
pipelines = ("a", of_receivers ("r" ∷ "q" ∷ [])) ∷ ("b", of_receivers ("r" ∷ [])) ∷ []

subscribe_all_exact_example :
    subscribers_at (subscribe_all pipelines []) "r" ≡ subscriptions "r" pipelines
subscribe_all_exact_example = subscribe_all_exact "r" pipelines
