-- ===== src/Summarizer/Spans.antt =====
-- The summarizer behind spanmetrics: what it makes of the request counter of a span. The label
-- `status.code` of spanmetrics is the name of the protocol's enumeration in lower case, such as
-- "status_code_unset", which is not one of the texts that the summarizer takes for success.
use nrt_aggragator.Prelude.{ℕ, ◌≡◌, refl, false, String}
use nrt_aggragator.Prelude.Text.{Strings, has_suffix, to_lower, is_empty}
use nrt_aggragator.Prelude.Dict.{Dict}
use nrt_aggragator.Prelude.Float.{Float, unit}
use nrt_aggragator.Config.{ProcessorCfg}
use nrt_aggragator.SpanMetrics.{Span, new, build_dimensions, build_requests_total, build_total}
use nrt_aggragator.Summarizer.{
  TDigest, Svc, get_attr, status_of, is_ok_status, count_point, consume_sum, consume_metric,
}

module _ {ℓ} {F : Type ℓ} ⦃f : Float F⦄ ⦃s : Strings⦄ where
  status_of-build_dimensions :
      (cfg : ProcessorCfg F) (sp : Span) (res_attrs : Dict String)
      → is_empty (to_lower sp.status_code) ≡ false
      → status_of (build_dimensions (new cfg) sp res_attrs) ≡ to_lower sp.status_code
  unfolding build_dimensions new get_attr
  status_of-build_dimensions cfg sp res_attrs full = rw full (rw full refl)

module _ {ℓ} {F T : Type ℓ} ⦃f : Float F⦄ ⦃t : TDigest F T⦄ ⦃s : Strings⦄ where
  -- A span whose status is not one of the texts that the summarizer takes for success is counted as
  -- a request and as an error, and not as a success, by the request counter alone.
  pub consume_metric-fails :
      (cfg : ProcessorCfg F) (sp : Span) (res_attrs : Dict String) (start end cap_size : ℕ)
      → (res : Dict String) (last : Dict F) (st : Svc F T)
      → is_empty (to_lower sp.status_code) ≡ false
      → is_ok_status (to_lower sp.status_code) ≡ false
      → (done : Svc F T) × (consume_metric cap_size res
            (build_requests_total start end (build_dimensions (new cfg) sp res_attrs))
            (last, st)
          ≡ (last, done))
        × (done.req ≡ f.add st.req unit)
        × (done.err ≡ f.add st.err unit)
        × (done.ok ≡ st.ok)
  unfolding consume_metric consume_sum count_point build_requests_total build_total has_suffix
  consume_metric-fails cfg sp res_attrs start end cap_size res last st full bad =
      let status = status_of-build_dimensions cfg sp res_attrs full in
      (_, refl, refl, rw (status, full, bad) refl, rw (status, full, bad) refl)
