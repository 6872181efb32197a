-- ===== src/Tests/Calls.antt =====
-- A service, and the calls that it answers.
use nrt_aggragator.Prelude.{
  ℕ, arith, ◌≤◌, ◌*◌, ◌/◌, ◌-◌, ◌+◌, ◌≡◌, refl, List, [], ◌∷◌, Option, none, some, length, drop,
}
use nrt_aggragator.Prelude.Int.{ℤ, pos}
use nrt_aggragator.Engine.{fetch_signals, investigate}
use nrt_aggragator.Api.{Timestamps, ProtoInvestigationRequest, from_proto_investigation_request}
use nrt_aggragator.Service.{
  CorrelationPatternRepo, Metrics, new_rca_service, investigate_incident, after_investigation,
  latency_p95,
}
use nrt_aggragator.Service.Latencies.{Call, Served, answered, failed, serve, serve_exact}
use nrt_aggragator.Service.Percentile.{Takes95, IsP95, latency_p95-IsP95}
use nrt_aggragator.Latency.{percentile}
use nrt_aggragator.Latency.Rank.{IsRank, percentile-IsRank}
use nrt_aggragator.Prelude.Float.{of_ℕ}
use nrt_aggragator.Tests.Fixed.{Fixed, fixed_float, plain_strings}
use nrt_aggragator.Tests.Rca.{pipeline, env}

instance abbrev whole_times : Timestamps ℤ
whole_times = record { new = λ t. t; as_time = λ t. t }

abbrev incident : ProtoInvestigationRequest Fixed ℤ
incident = record {
  incident_id = "i";
  symptoms = [];
  time_range = some (record { start = some (pos 1); end = some (pos 9) });
  affected_services = "api" ∷ [];
  anomaly_threshold = fixed_float.decimal 2 0;
  tenant_id = "t";
}

abbrev no_range : ProtoInvestigationRequest Fixed ℤ
no_range = record incident { time_range = none }

abbrev call : ℤ → Option (ProtoInvestigationRequest Fixed ℤ) → Call Fixed ℤ
call d request = record { env = env; duration = d; request = request }

abbrev calls : List (Call Fixed ℤ)
calls =
    call (pos 5) (some incident)
    ∷ call (pos 6) none
    ∷ call (pos 7) (some no_range)
    ∷ call (pos 8) (some incident)
    ∷ []

abbrev no_metrics : Metrics
no_metrics = record { successes = 0; errors = 0; durations = [] }

abbrev no_repo : Option (CorrelationPatternRepo Fixed ℤ)
no_repo = none

abbrev served_of : List (Call Fixed ℤ) → Served Fixed ℤ ℤ
served_of cs = serve (new_rca_service (some pipeline) no_repo) no_metrics cs

answered_runs : answered calls (served_of calls).responses ≡ pos 5 ∷ pos 8 ∷ []
unfolding investigate_incident after_investigation from_proto_investigation_request investigate
    new_rca_service fetch_signals
answered_runs = refl

serve_exact_example :
    let after = served_of calls in
    let done = answered calls after.responses in
    (after.service.latencies.samples ≡ drop (length done - 1024) done)
    × (after.metrics.successes ≡ 0 + length done)
    × (after.metrics.errors ≡ 0 + failed after.responses)
serve_exact_example = serve_exact (some pipeline) no_repo no_metrics calls

trunc_95 :
    (k : ℕ)
    → (i : ℕ) × (fixed_float.to_int (
          fixed_float.mul
            (fixed_float.div (fixed_float.decimal 95 0) (fixed_float.decimal 100 0))
            (of_ℕ k))
        ≡ pos i)
      × (i ≤ k)
trunc_95 k = (950_000 * (k * 1_000_000) / 1_000_000 / 1_000_000, ground arith, omega arith)

Fixed-Takes95 : Takes95 Fixed
Fixed-Takes95 = record { above = refl; below = refl; truncated = trunc_95 }

latency_p95-IsP95_example :
    let after = served_of calls in
    let done = answered calls after.responses in
    IsP95 Fixed (drop (length done - 1024) done) (latency_p95 after.service)
latency_p95-IsP95_example =
    latency_p95-IsP95 Fixed-Takes95 (some pipeline) no_repo no_metrics calls
      (rw answered_runs (λ e. cc))

percentile-IsRank_example : IsRank 1 (pos 5 ∷ pos 9 ∷ pos 7 ∷ []) (
    percentile
      (record { samples = pos 5 ∷ pos 9 ∷ pos 7 ∷ []; max_size = 4 })
      (fixed_float.decimal 95 0))
percentile-IsRank_example =
    percentile-IsRank (record { samples = pos 5 ∷ pos 9 ∷ pos 7 ∷ []; max_size = 4 })
      (fixed_float.decimal 95 0) 1 refl refl refl (omega arith)
