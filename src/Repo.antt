-- ===== src/Repo.antt =====
-- mirador-rca-main/internal/repo/weaviate_repo.go: correlations, patterns and feedback as objects of
-- a Weaviate server. An object is a map of properties; JSON, HTTP, the cache and the printing and
-- reading of times are parameters.
pub mod Records
pub mod Queries
pub mod Synthetic
pub mod Client
pub mod Reads
pub mod Stored
pub mod Paging
pub mod Similar
use nrt_aggragator.Prelude.{Bool, List, [], ◌∷◌, map, String, if◌then◌else◌, Option, none, some}
use nrt_aggragator.Prelude.Text.{Strings, to_lower}
use nrt_aggragator.Prelude.Dict.{Dict, get}
use nrt_aggragator.Prelude.Float.{Float, nought}
use text.Mathlib.Text.{◌==◌ as str_eq}
use nrt_aggragator.Models.{
  Time, is_zero, DataType, data_type_metrics, data_type_logs, data_type_traces, Severity,
  severity_low, severity_medium, severity_high, severity_critical, RedAnchor, TimelineEvent,
  CorrelationResult, AnchorTemplate, FailurePattern,
}

-- a value inside a nested object
pub data Leaf {ℓ} (F : Type ℓ) : Type ℓ where
  leaf_text : String → Leaf F
  leaf_number : F → Leaf F

pub data Property {ℓ} (F : Type ℓ) : Type ℓ where
  property_text : String → Property F
  property_number : F → Property F
  property_flag : Bool → Property F
  property_texts : List String → Property F
  property_fields : Dict (Leaf F) → Property F
  property_items : List (Dict (Leaf F)) → Property F

abbrev pub Object {ℓ} : Type ℓ → Type ℓ
Object F = Dict (Property F)

pub record Feedback : Type 0 where
  pub tenant_id : String
  pub correlation_id : String
  pub correct : Bool
  pub notes : String
  pub submitted_at : Time

-- `Format` and `Parse` for RFC 3339, where a text that is no time gives the zero time, and how the
-- decoder of JSON reads a time.
pub record Times : Type 0 where
  pub format : Time → String
  pub parse : String → Time
  pub decode : String → Option Time

abbrev pub or_now : Time → Time → Time
or_now now t = if is_zero t then now else t

module _ {ℓ} {F : Type ℓ} ⦃t : Times⦄ where
  unfoldable pub template_fields : AnchorTemplate F → Dict (Leaf F)
  template_fields a =
      ("service", leaf_text a.service)
      ∷ ("signalType", leaf_text a.signal_type)
      ∷ ("selector", leaf_text a.selector)
      ∷ ("typicalLeadLag", leaf_number a.typical_lag)
      ∷ ("threshold", leaf_number a.threshold)
      ∷ []

  unfoldable pub build_pattern_properties : Time → String → FailurePattern F → Object F
  unfolding template_fields
  build_pattern_properties now tenant_id p =
      ("patternId", property_text p.id)
      ∷ ("tenantId", property_text tenant_id)
      ∷ ("name", property_text p.name)
      ∷ ("description", property_text p.description)
      ∷ ("services", property_texts p.services)
      ∷ ("prevalence", property_number p.prevalence)
      ∷ ("lastSeen", property_text (t.format (or_now now p.last_seen)))
      ∷ ("anchorTemplates", property_items (map template_fields p.anchor_templates))
      ∷ (
        "quality",
        property_fields
            (("precision", leaf_number p.precision) ∷ ("recall", leaf_number p.recall) ∷ []),
      )
      ∷ []

  unfoldable pub build_feedback_properties : Time → Feedback → Object F
  build_feedback_properties now fb =
      ("tenantId", property_text fb.tenant_id)
      ∷ ("correlationId", property_text fb.correlation_id)
      ∷ ("correct", property_flag fb.correct)
      ∷ ("notes", property_text fb.notes)
      ∷ ("submittedAt", property_text (t.format (or_now now fb.submitted_at)))
      ∷ []

  unfoldable pub anchor_fields : RedAnchor F → Dict (Leaf F)
  anchor_fields a =
      ("service", leaf_text a.service)
      ∷ ("selector", leaf_text a.selector)
      ∷ ("dataType", leaf_text a.data_type)
      ∷ ("timestamp", leaf_text (t.format a.timestamp))
      ∷ ("anomalyScore", leaf_number a.anomaly_score)
      ∷ ("threshold", leaf_number a.threshold)
      ∷ []

  unfoldable pub event_fields : TimelineEvent F → Dict (Leaf F)
  event_fields e =
      ("time", leaf_text (t.format e.time))
      ∷ ("event", leaf_text e.event)
      ∷ ("service", leaf_text e.service)
      ∷ ("severity", leaf_text e.severity)
      ∷ ("anomalyScore", leaf_number e.anomaly_score)
      ∷ ("dataSource", leaf_text e.data_source)
      ∷ []

  unfoldable pub build_correlation_properties : Time → String → CorrelationResult F → Object F
  unfolding anchor_fields event_fields
  build_correlation_properties now tenant_id c =
      ("correlationId", property_text c.correlation_id)
      ∷ ("incidentId", property_text c.incident_id)
      ∷ ("tenantId", property_text tenant_id)
      ∷ ("rootCause", property_text c.root_cause)
      ∷ ("confidence", property_number c.confidence)
      ∷ ("affectedServices", property_texts c.affected_services)
      ∷ ("recommendations", property_texts c.recommendations)
      ∷ ("createdAt", property_text (t.format (or_now now c.created_at)))
      ∷ ("redAnchors", property_items (map anchor_fields c.red_anchors))
      ∷ ("timeline", property_items (map event_fields c.timeline))
      ∷ []
