-- ===== src/SpanMetrics/Labels.antt =====
-- The labels of the metrics of a span.
use text.Mathlib.Text.{◌==◌ as str_eq}
use text.Mathlib.TextPositions.{eq_refl}
use nrt_aggragator.Prelude.{
  ℕ, ◌+◌, ◌≤◌, ◌≡◌, false, List, [], ◌∷◌, ◌++◌, String, if◌then◌else◌, arith, Bool-cases, inl, inr,
  some, is_nil,
}
use nrt_aggragator.Prelude.Text.{Strings, is_empty}
use nrt_aggragator.Prelude.Dict.{Dict, get}
use nrt_aggragator.Prelude.Float.{Float}
use nrt_aggragator.Config.{ProcessorCfg}
use nrt_aggragator.Telemetry.{KeyValue, attrs_to_map}
use nrt_aggragator.SpanMetrics.{
  Span, new, label_of, dimension_labels, all_dimension_labels, build_dimensions,
}

-- how many labels have the key
abbrev pub count_key : String → List KeyValue → ℕ
count_key k [] = 0
count_key k (l ∷ ls) = (if str_eq l.key k then 1 else 0) + count_key k ls

count_key-append :
    (k : String) (xs ys : List KeyValue) → count_key k (xs ++ ys) ≡ count_key k xs + count_key k ys
count_key-append k [] ys = omega arith
count_key-append k (x ∷ xs) ys = omega (arith, count_key-append k xs ys)

-- A label that a map gives has the key that was looked up.
count_key-label_of :
    (m : Dict String) (k : String) → is_nil (label_of m k) ≡ false → count_key k (label_of m k) ≡ 1
unfolding label_of
count_key-label_of m k h = ground (arith, eq_refl k)

label_of-is_nil :
    (m : Dict String) (k v : String)
    → get m k ≡ some v
    → is_empty v ≡ false
    → is_nil (label_of m k) ≡ false
unfolding label_of
label_of-is_nil m k v found full = ground (arith, found, full)

module _ ⦃s : Strings⦄ where
  dimension_labels-resource :
      (span_attr res_attrs : Dict String)
      → s.trim "service.name" ≡ "service.name"
      → is_nil (label_of res_attrs "service.name") ≡ false
      → count_key "service.name" (dimension_labels span_attr res_attrs "service.name") ≡ 1
  unfolding dimension_labels
  dimension_labels-resource span_attr res_attrs trimmed full =
      rw trimmed (elim (Bool-cases (is_nil (label_of span_attr "service.name"))) [
        | inl absent ↦ rw absent (count_key-label_of res_attrs "service.name" full)
        | inr present ↦ rw present (count_key-label_of span_attr "service.name" present)
      ])

module _ {ℓ} {F : Type ℓ} ⦃f : Float F⦄ ⦃s : Strings⦄ where
  -- If the resource names its service, and the name of that attribute has no white space around
  -- it, the labels of every span have two entries for the service at least.
  pub build_dimensions-repeats :
      (cfg : ProcessorCfg F) (sp : Span) (res_attrs : Dict String) (service : String)
      → s.trim "service.name" ≡ "service.name"
      → get res_attrs "service.name" ≡ some service
      → is_empty service ≡ false
      → 2 ≤ count_key "service.name" (build_dimensions (new cfg) sp res_attrs)
  unfolding build_dimensions new all_dimension_labels
  build_dimensions-repeats cfg sp res_attrs service trimmed found full =
      let k : String = "service.name" in
      let attr = attrs_to_map sp.attributes in
      let named = label_of-is_nil res_attrs k service found full in
      let first = dimension_labels attr res_attrs k in
      let rest =
        all_dimension_labels attr res_attrs
          ("http.method" ∷ "http.route" ∷ "span.kind" ∷ "status.code" ∷ []) in
      let last = label_of res_attrs k in
      omega (
        arith,
        dimension_labels-resource attr res_attrs trimmed named,
        count_key-label_of res_attrs k named,
        count_key-append k (first ++ rest) last,
        count_key-append k first rest,
      )
