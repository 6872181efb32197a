-- ===== src/Repo/Synthetic.antt =====
-- The made-up answers of weaviate_repo.go for a server that cannot be asked.
use Prim.Native.String.{◌++◌ as join}
use nrt_aggragator.Prelude.{ℕ, zero, suc, ◌*◌, List, [], ◌∷◌, ◌++◌, String, if◌then◌else◌}
use nrt_aggragator.Prelude.Int.{ℤ, pos, ◌-ℤ◌}
use nrt_aggragator.Prelude.Text.{Strings, is_empty}
use nrt_aggragator.Prelude.Float.{Float, of_ℕ}
use nrt_aggragator.Models.{
  Time, data_type_metrics, severity_high, CorrelationResult, FailurePattern,
}
use nrt_aggragator.Repo.Queries.{ListCorrelationsRequest, ListCorrelationsResponse}

abbrev hour : ℕ
hour = 3_600_000_000_000

abbrev minute : ℕ
minute = 60_000_000_000

-- a limit that is not positive becomes 3
abbrev pub positive_limit : ℤ → ℕ
positive_limit (pos (suc n)) = suc n
positive_limit _ = 3

module _ {ℓ} {F : Type ℓ} ⦃f : Float F⦄ where
  unfoldable pub synthetic_patterns : Time → String → List (FailurePattern F)
  synthetic_patterns now service =
      let svc = if is_empty service then "synthetic-service" else service in
      record {
        id = "pattern-1";
        name = "CPU saturation";
        description = "Sudden CPU saturation followed by error spikes";
        services = svc ∷ [];
        anchor_templates =
            record {
              service = svc;
              signal_type = "metrics";
              selector = "cpu_usage";
              typical_lag = f.decimal 1 0;
              threshold = f.decimal 8 1;
            }
            ∷ record {
              service = svc;
              signal_type = "logs";
              selector = "error";
              typical_lag = f.decimal 2 0;
              threshold = f.decimal 10 0;
            }
            ∷ [];
        prevalence = f.decimal 32 2;
        last_seen = now -ℤ pos (24 * hour);
        precision = f.decimal 68 2;
        recall = f.decimal 44 2;
      }
      ∷ []

  unfoldable pub synthetic_correlation_list :
      Time → ListCorrelationsRequest → ListCorrelationsResponse F
  synthetic_correlation_list now req =
      let service = if is_empty req.service then "synthetic-service" else req.service in
      record {
        correlations =
            record {
              correlation_id = "synthetic-corr-1";
              incident_id = "synthetic-incident-1";
              root_cause = join service ": cpu usage anomaly";
              confidence = f.decimal 65 2;
              affected_services = service ∷ [];
              red_anchors =
                  record {
                    service = service;
                    selector = "metrics:cpu_usage";
                    data_type = data_type_metrics;
                    timestamp = now -ℤ pos (70 * minute);
                    anomaly_score = f.decimal 32 1;
                    threshold = f.decimal 2 0;
                  }
                  ∷ [];
              timeline =
                  record {
                    time = now -ℤ pos (75 * minute);
                    event = "Metric anomaly detected";
                    service = service;
                    severity = severity_high;
                    anomaly_score = f.decimal 32 1;
                    data_source = data_type_metrics;
                  }
                  ∷ [];
              recommendations = "Scale service" ∷ "Review upstream errors" ∷ [];
              created_at = now -ℤ pos hour;
            }
            ∷ [];
        next_page_token = "";
      }

  module _ ⦃s : Strings⦄ where
    synthetic_incident : Time → ℕ → CorrelationResult F
    synthetic_incident now i = record {
      correlation_id = join "synthetic-" (s.itoa (pos (suc i)));
      incident_id = join "incident-" (s.itoa (pos (suc i)));
      root_cause = "synthetic-service";
      confidence = f.add (f.decimal 55 2) (f.mul (of_ℕ i) (f.decimal 5 2));
      affected_services = "synthetic-service" ∷ [];
      red_anchors = [];
      timeline = [];
      recommendations = "Check downstream dependencies" ∷ "Review recent deploy" ∷ [];
      created_at = now -ℤ pos (i * hour);
    }

    -- the loop, from `i` on
    unfoldable pub synthetic_incidents : Time → ℕ → ℕ → List (CorrelationResult F)
    unfolding synthetic_incident
    synthetic_incidents now i zero = []
    synthetic_incidents now i (suc n) = synthetic_incident now i ∷ synthetic_incidents now (suc i) n

    -- `results[0]`, which is there: the limit is positive
    abbrev pub add_hint : List String → List (CorrelationResult F) → List (CorrelationResult F)
    add_hint [] results = results
    add_hint (symptom ∷ symptoms) [] = []
    add_hint (symptom ∷ symptoms) (r ∷ rs) =
        record r { recommendations = r.recommendations ++ (join "Symptom hint: " symptom ∷ []) }
        ∷ rs

    unfoldable pub synthetic_similar_incidents : Time → List String → ℤ → List (CorrelationResult F)
    unfolding synthetic_incidents
    synthetic_similar_incidents now symptoms limit =
        add_hint symptoms (synthetic_incidents now 0 (positive_limit limit))
