-- ===== src/Repo/Records.antt =====
-- How weaviate_repo.go reads objects: the decoding into its structs, and what it makes of these. A
-- key stands in an object as it is written in the tag of the field.
use nrt_aggragator.Prelude.{List, [], ◌∷◌, String, if◌then◌else◌, Option, none, some}
use nrt_aggragator.Prelude.Int.{pos}
use nrt_aggragator.Prelude.Text.{Strings, to_lower}
use nrt_aggragator.Prelude.Dict.{Dict, get}
use nrt_aggragator.Prelude.Float.{Float, nought}
use text.Mathlib.Text.{◌==◌ as str_eq}
use nrt_aggragator.Models.{
  Time, DataType, data_type_metrics, data_type_logs, data_type_traces, Severity, severity_low,
  severity_medium, severity_high, severity_critical, RedAnchor, TimelineEvent, CorrelationResult,
  AnchorTemplate, FailurePattern,
}
use nrt_aggragator.Repo.{
  Leaf, leaf_text, leaf_number, Property, property_text, property_number, property_texts,
  property_fields, property_items, Object, Times,
}

-- a value that was read, or none where its type is another
infixl 5 ◌>>=◌
abbrev pub ◌>>=◌ {ℓ κ} : {A : Type ℓ} {B : Type κ} → Option A → (A → Option B) → Option B
none >>= g = none
some a >>= g = g a

module _ {ℓ} {F : Type ℓ} ⦃t : Times⦄ where
  abbrev time_at : Option (Property F) → Option Time
  time_at none = some (pos 0)
  time_at (some (property_text s)) = t.decode s
  time_at _ = none

-- every element, or none if one cannot be read
unfoldable pub read_all {ℓ κ} :
    {M : Type ℓ} {A : Type κ} → (M → Option A) → List M → Option (List A)
read_all read [] = some []
read_all read (m ∷ ms) = read m >>= (λ a. read_all read ms >>= (λ rest. some (a ∷ rest)))

module _ {ℓ} {F : Type ℓ} where
  -- The decoder leaves a field that is missing at its zero value.
  abbrev leaf_text_at : Dict (Leaf F) → String → Option String
  leaf_text_at m key = elim (get m key) [
    | none ↦ some ""
    | some (leaf_text s) ↦ some s
    | some (leaf_number x) ↦ none
  ]

  abbrev pub text_at : Object F → String → Option String
  text_at m key = elim (get m key) [ none ↦ some "" | some (property_text s) ↦ some s | _ ↦ none ]

  abbrev texts_at : Object F → String → Option (List String)
  texts_at m key = elim (get m key) [
    | none ↦ some []
    | some (property_texts ss) ↦ some ss
    | _ ↦ none
  ]

  abbrev items_at : Object F → String → Option (List (Dict (Leaf F)))
  items_at m key = elim (get m key) [
    | none ↦ some []
    | some (property_items ms) ↦ some ms
    | _ ↦ none
  ]

  abbrev fields_at : Object F → String → Option (Dict (Leaf F))
  fields_at m key = elim (get m key) [
    | none ↦ some []
    | some (property_fields ms) ↦ some ms
    | _ ↦ none
  ]

module _ {ℓ} {F : Type ℓ} ⦃f : Float F⦄ where
  abbrev leaf_number_at : Dict (Leaf F) → String → Option F
  leaf_number_at m key = elim (get m key) [
    | none ↦ some nought
    | some (leaf_number x) ↦ some x
    | some (leaf_text s) ↦ none
  ]

  abbrev number_at : Object F → String → Option F
  number_at m key = elim (get m key) [
    | none ↦ some nought
    | some (property_number x) ↦ some x
    | _ ↦ none
  ]

  -- The decoder reads "thresholds".
  unfoldable pub template_of : Dict (Leaf F) → Option (AnchorTemplate F)
  template_of m = leaf_text_at m "service" >>= (λ service.
      leaf_text_at m "signalType" >>= (λ signal_type. leaf_text_at m "selector" >>= (λ selector.
        leaf_number_at m "typicalLeadLag" >>= (λ lag.
          leaf_number_at m "thresholds" >>= (λ threshold. some (record {
            service = service;
            signal_type = signal_type;
            selector = selector;
            typical_lag = lag;
            threshold = threshold;
          }))))))

module _ ⦃s : Strings⦄ where
  unfoldable pub parse_data_type : String → DataType
  parse_data_type v =
      let low = to_lower v in
      if str_eq low "metrics"
      then data_type_metrics
      else if str_eq low "logs"
      then data_type_logs
      else if str_eq low "traces"
      then data_type_traces
      else v

  unfoldable pub parse_severity : String → Severity
  parse_severity v =
      let low = to_lower v in
      if str_eq low "low"
      then severity_low
      else if str_eq low "medium"
      then severity_medium
      else if str_eq low "high"
      then severity_high
      else if str_eq low "critical"
      then severity_critical
      else v

module _ {ℓ} {F : Type ℓ} ⦃f : Float F⦄ ⦃t : Times⦄ where
  -- what `FetchPatterns` makes of an object
  unfoldable pub pattern_of : Object F → Option (FailurePattern F)
  unfolding template_of read_all
  pattern_of o = text_at o "patternId" >>= (λ id. text_at o "name" >>= (λ name.
      text_at o "description" >>= (λ description. texts_at o "services" >>= (λ services.
        items_at o "anchorTemplates" >>= read_all template_of >>= (λ templates.
          number_at o "prevalence" >>= (λ prevalence. text_at o "lastSeen" >>= (λ last_seen.
            fields_at o "quality" >>= (λ quality.
              leaf_number_at quality "precision" >>= (λ precision.
                leaf_number_at quality "recall" >>= (λ recall. some (record {
                  id = id;
                  name = name;
                  description = description;
                  services = services;
                  anchor_templates = templates;
                  prevalence = prevalence;
                  last_seen = t.parse last_seen;
                  precision = precision;
                  recall = recall;
                })))))))))))

  -- What `SimilarIncidents` makes of an object: the decoder itself reads the time.
  unfoldable pub similar_of : Object F → Option (CorrelationResult F)
  similar_of o = text_at o "correlationId" >>= (λ correlation_id.
      text_at o "incidentId" >>= (λ incident_id. text_at o "rootCause" >>= (λ root_cause.
        number_at o "confidence" >>= (λ confidence. texts_at o "affectedServices" >>= (λ affected.
          texts_at o "recommendations" >>= (λ recommendations.
            time_at (get o "createdAt") >>= (λ created_at. some (record {
              correlation_id = correlation_id;
              incident_id = incident_id;
              root_cause = root_cause;
              confidence = confidence;
              affected_services = affected;
              red_anchors = [];
              timeline = [];
              recommendations = recommendations;
              created_at = created_at;
            }))))))))

  module _ ⦃s : Strings⦄ where
    unfoldable pub anchor_of : Dict (Leaf F) → Option (RedAnchor F)
    unfolding parse_data_type
    anchor_of m = leaf_text_at m "service" >>= (λ service.
        leaf_text_at m "selector" >>= (λ selector. leaf_text_at m "dataType" >>= (λ data_type.
          leaf_text_at m "timestamp" >>= (λ timestamp.
            leaf_number_at m "anomalyScore" >>= (λ anomaly_score.
              leaf_number_at m "threshold" >>= (λ threshold. some (record {
                service = service;
                selector = selector;
                data_type = parse_data_type data_type;
                timestamp = t.parse timestamp;
                anomaly_score = anomaly_score;
                threshold = threshold;
              })))))))

    unfoldable pub event_of : Dict (Leaf F) → Option (TimelineEvent F)
    unfolding parse_data_type parse_severity
    event_of m = leaf_text_at m "time" >>= (λ time. leaf_text_at m "event" >>= (λ event.
        leaf_text_at m "service" >>= (λ service. leaf_text_at m "severity" >>= (λ severity.
          leaf_number_at m "anomalyScore" >>= (λ anomaly_score.
            leaf_text_at m "dataSource" >>= (λ data_source. some (record {
              time = t.parse time;
              event = event;
              service = service;
              severity = parse_severity severity;
              anomaly_score = anomaly_score;
              data_source = parse_data_type data_source;
            })))))))

    -- what `ListCorrelations` makes of an object
    unfoldable pub correlation_of : Object F → Option (CorrelationResult F)
    unfolding anchor_of event_of read_all
    correlation_of o = text_at o "correlationId" >>= (λ correlation_id.
        text_at o "incidentId" >>= (λ incident_id. text_at o "rootCause" >>= (λ root_cause.
          number_at o "confidence" >>= (λ confidence. texts_at o "affectedServices" >>= (λ affected.
            texts_at o "recommendations" >>= (λ recommendations.
              text_at o "createdAt" >>= (λ created_at.
                items_at o "redAnchors" >>= read_all anchor_of >>= (λ anchors.
                  items_at o "timeline" >>= read_all event_of >>= (λ timeline. some (record {
                    correlation_id = correlation_id;
                    incident_id = incident_id;
                    root_cause = root_cause;
                    confidence = confidence;
                    affected_services = affected;
                    red_anchors = anchors;
                    timeline = timeline;
                    recommendations = recommendations;
                    created_at = t.parse created_at;
                  }))))))))))
