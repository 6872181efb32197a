-- ===== src/Repo/Stored.antt =====
-- What comes back of the objects that are stored.
use nrt_aggragator.Prelude.{◌≡◌, refl, List, [], ◌∷◌, map, String, Option, some}
use nrt_aggragator.Prelude.Text.{Strings}
use nrt_aggragator.Prelude.Dict.{Dict, get}
use nrt_aggragator.Prelude.Float.{Float, nought}
use nrt_aggragator.Models.{
  Time, RedAnchor, TimelineEvent, CorrelationResult, AnchorTemplate, FailurePattern,
}
use nrt_aggragator.Repo.{
  Leaf, Times, or_now, template_fields, build_pattern_properties, anchor_fields, event_fields,
  build_correlation_properties,
}
use nrt_aggragator.Repo.Records.{
  read_all, template_of, pattern_of, parse_data_type, parse_severity, anchor_of, event_of,
  correlation_of,
}

read_all-map {ℓ κ μ} :
    {F : Type ℓ} {A : Type κ} {B : Type μ} (read : Dict (Leaf F) → Option B)
    (write : A → Dict (Leaf F)) (back : A → B) (xs : List A)
    → ((a : A) → read (write a) ≡ some (back a))
    → read_all read (map write xs) ≡ some (map back xs)
unfolding read_all
read_all-map read write back [] h = refl
read_all-map read write back (x ∷ xs) h = rw (h x, read_all-map read write back xs h) refl

module _ {ℓ} {F : Type ℓ} ⦃f : Float F⦄ ⦃t : Times⦄ where
  -- the template without its threshold
  abbrev pub without_threshold : AnchorTemplate F → AnchorTemplate F
  without_threshold a = record a { threshold = nought }

  template_of-fields :
      (a : AnchorTemplate F) → template_of (template_fields a) ≡ some (without_threshold a)
  unfolding template_of template_fields get
  template_of-fields a = refl

  -- A pattern comes back as it was stored, but for the time, which is printed and read, and for the
  -- thresholds of its templates, which come back as 0.
  pub pattern_of-build :
      (now : Time) (tenant_id : String) (p : FailurePattern F)
      → pattern_of (build_pattern_properties now tenant_id p)
        ≡ some (record p {
          last_seen = t.parse (t.format (or_now now p.last_seen));
          anchor_templates = map without_threshold p.anchor_templates;
        })
  unfolding pattern_of build_pattern_properties get
  pattern_of-build now tenant_id p =
      rw
        (read_all-map template_of template_fields without_threshold p.anchor_templates
          template_of-fields)
        refl

  module _ ⦃s : Strings⦄ where
    abbrev pub reread_anchor : RedAnchor F → RedAnchor F
    reread_anchor a = record a {
      data_type = parse_data_type a.data_type;
      timestamp = t.parse (t.format a.timestamp);
    }

    abbrev pub reread_event : TimelineEvent F → TimelineEvent F
    reread_event e = record e {
      time = t.parse (t.format e.time);
      severity = parse_severity e.severity;
      data_source = parse_data_type e.data_source;
    }

    anchor_of-fields : (a : RedAnchor F) → anchor_of (anchor_fields a) ≡ some (reread_anchor a)
    unfolding anchor_of anchor_fields get
    anchor_of-fields a = refl

    event_of-fields : (e : TimelineEvent F) → event_of (event_fields e) ≡ some (reread_event e)
    unfolding event_of event_fields get
    event_of-fields e = refl

    -- A correlation comes back as it was stored, its anchors and its timeline in their order, but
    -- for the times, which are printed and read, and the data types and severities, whose case is
    -- that of the known ones.
    pub correlation_of-build :
        (now : Time) (tenant_id : String) (c : CorrelationResult F)
        → correlation_of (build_correlation_properties now tenant_id c)
          ≡ some (record c {
            created_at = t.parse (t.format (or_now now c.created_at));
            red_anchors = map reread_anchor c.red_anchors;
            timeline = map reread_event c.timeline;
          })
    unfolding correlation_of build_correlation_properties get
    correlation_of-build now tenant_id c =
        rw
          (
            read_all-map anchor_of anchor_fields reread_anchor c.red_anchors anchor_of-fields,
            read_all-map event_of event_fields reread_event c.timeline event_of-fields,
          )
          refl
