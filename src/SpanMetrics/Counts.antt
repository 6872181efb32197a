-- ===== src/SpanMetrics/Counts.antt =====
-- How many metrics the spans of a resource give.
use text.Mathlib.Text.{◌==◌ as str_eq}
use nrt_aggragator.Prelude.{ℕ, ◌+◌, ◌≡◌, List, [], ◌∷◌, String, if◌then◌else◌, length}
use nrt_aggragator.Prelude.Text.{Strings}
use nrt_aggragator.Prelude.Dict.{Dict}
use nrt_aggragator.Prelude.Float.{Float}
use nrt_aggragator.Telemetry.{Metric}
use nrt_aggragator.SpanMetrics.{Span, Processor, is_error_span}

module _ {ℓ} {F : Type ℓ} where
  -- how many metrics have the name
  abbrev count_named : String → List (Metric F) → ℕ
  count_named name [] = 0
  count_named name (m ∷ ms) = (if str_eq m.name name then 1 else 0) + count_named name ms

module _ {ℓ} {F : Type ℓ} ⦃f : Float F⦄ ⦃s : Strings⦄ (p : Processor F) where
  abbrev errors_in : List Span → ℕ
  errors_in [] = 0
  errors_in (sp ∷ spans) = (if is_error_span p sp then 1 else 0) + errors_in spans

  abbrev count_spans : List Span → ℕ
  count_spans [] = 0
  count_spans (sp ∷ spans) = 1 + count_spans spans

  -- the spans, and those among them that are errors, of all scopes
  abbrev spans_in : List (List Span) → ℕ
  spans_in [] = 0
  spans_in (spans ∷ scopes) = count_spans spans + spans_in scopes

  abbrev all_errors_in : List (List Span) → ℕ
  all_errors_in [] = 0
  all_errors_in (spans ∷ scopes) = errors_in spans + all_errors_in scopes

  -- One request counter and one histogram for each span, and one error counter for each error.
  abbrev pub IsRed : ℕ → ℕ → List (Metric F) → Type 0
  IsRed spans errors ms =
      (count_named "requests_total" ms ≡ spans)
      × (count_named "duration_seconds" ms ≡ spans)
      × (count_named "errors_total" ms ≡ errors)
      × (length ms ≡ spans + spans + errors)
