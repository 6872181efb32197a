-- ===== src/Tests/Filter.antt =====
-- The theorem about the filter.
use nrt_aggragator.Prelude.{Bool, false, some, []}
use nrt_aggragator.Prelude.Int.{pos}
use nrt_aggragator.Telemetry.{Item, envelope}
use nrt_aggragator.Filter.{Processor, bool_value}
use nrt_aggragator.Tests.Fixed.{Fixed, fixed_float, plain_strings}

abbrev item : Item Fixed
item = envelope (record { kind = "metrics"; bytes = []; attrs = []; ts_unix = pos 4 })

-- a filter that matches nothing
abbrev strainer : Bool → Processor Fixed Bool
strainer drop = record {
  stage = "pre";
  on = "metrics";
  drop_non_matching = drop;
  program = λ vars. some (bool_value false);
}
