-- ===== src/Repo/Reads.antt =====
-- The methods of WeaviateRepo that read, with the cache in front of two of them.
use nrt_aggragator.Prelude.{
  ℕ, suc, ◌+◌, not, ◌&&◌, List, String, if◌then◌else◌, Option, none, some, length, leb, ◌==◌,
  is_nil,
}
use nrt_aggragator.Prelude.Int.{ℤ, pos, ltb_ℤ}
use nrt_aggragator.Prelude.Text.{Strings, is_empty}
use nrt_aggragator.Prelude.TextOrder.{text_lt}
use nrt_aggragator.Prelude.Sort.{sort}
use nrt_aggragator.Prelude.Result.{Result, ok, err}
use nrt_aggragator.Prelude.Float.{Float}
use nrt_aggragator.Telemetry.{Bytes}
use nrt_aggragator.Models.{CorrelationResult, FailurePattern}
use nrt_aggragator.Repo.{Times}
use nrt_aggragator.Repo.Records.{◌>>=◌, read_all, pattern_of, similar_of, correlation_of}
use nrt_aggragator.Repo.Queries.{
  ListCorrelationsRequest, ListCorrelationsResponse, cache_patterns_key,
  cache_similar_incidents_key, patterns_query, similar_query, correlations_query,
}
use nrt_aggragator.Repo.Synthetic.{
  synthetic_patterns, synthetic_similar_incidents, synthetic_correlation_list,
}
use nrt_aggragator.Repo.Client.{Backend, WeaviateRepo, not_initialised, post_query}

-- What a cache holds under a key, decoded. Without a time to live it is not asked.
abbrev pub cached {ℓ κ} :
    {A : Type ℓ} {W : Type κ}
    → (String → W → Option Bytes × W)
    → (Bytes → Option A)
    → ℤ
    → String
    → W
    → Option A × W
cached look decode ttl key w =
    if ltb_ℤ (pos 0) ttl then ((look key w).0 >>= decode, (look key w).1) else (none, w)

-- A result is kept if it is not empty and there is a time to live.
abbrev pub keep {ℓ κ} :
    {A : Type ℓ} {W : Type κ}
    → (String → Bytes → ℤ → W → W)
    → (List A → Option Bytes)
    → ℤ
    → String
    → List A
    → W
    → W
keep store encode ttl key results w =
    if ltb_ℤ (pos 0) ttl && not (is_nil results)
    then elim (encode results) [ none ↦ w | some body ↦ store key body ttl w ]
    else w

abbrev pub decoded_or {ℓ κ} :
    {A : Type ℓ} {W : Type κ}
    → (W → List A)
    → (List A → W → W)
    → W
    → Option (List A)
    → Result (List A) × W
decoded_or synthetic after w none = (ok (synthetic w), w)
decoded_or synthetic after w (some results) = (ok results, after results w)

-- the made-up answer, where the server could not be asked or its answer not be read
abbrev pub or_synthetic {ℓ κ} :
    {A : Type ℓ} {W : Type κ}
    → (W → List A)
    → (Bytes → Option (List A))
    → (List A → W → W)
    → Result (Option Bytes) × W
    → Result (List A) × W
or_synthetic synthetic decode after (err e, w) = (err e, w)
or_synthetic synthetic decode after (ok none, w) = (ok (synthetic w), w)
or_synthetic synthetic decode after (ok (some body), w) = decoded_or synthetic after w (decode body)

-- the cached answer, or the one that is asked for
abbrev pub or_asked {ℓ κ} :
    {A : Type ℓ} {W : Type κ} → (W → Result A × W) → Option A × W → Result A × W
or_asked ask (some found, w) = (ok found, w)
or_asked ask (none, w) = ask w

-- from 1 to 100, or 20
unfoldable pub page_limit : ℤ → ℕ
page_limit (pos (suc n)) = if leb (suc n) 100 then suc n else 20
page_limit _ = 20

-- A token that is no number, or a negative one, starts at the beginning.
unfoldable pub page_offset : (String → Option ℤ) → String → ℕ
page_offset atoi token =
    if is_empty token then 0 else elim (atoi token) [ some (pos n) ↦ n | _ ↦ 0 ]

module _ ⦃s : Strings⦄ where
  abbrev pub similar_key : String → List String → ℤ → String
  similar_key tenant_id symptoms limit =
      cache_similar_incidents_key tenant_id (sort text_lt symptoms) limit

module _ {ℓ} {F : Type ℓ} ⦃s : Strings⦄ where
  -- a page, and the token of the next one where this one is full
  unfoldable pub page_of : ℕ → ℕ → List (CorrelationResult F) → ListCorrelationsResponse F
  page_of limit offset found = record {
    correlations = found;
    next_page_token = if length found == limit then s.itoa (pos (offset + length found)) else "";
  }

module _ {ℓ} {F W : Type ℓ} ⦃f : Float F⦄ ⦃t : Times⦄ (b : Backend F W) where
  unfoldable patterns_in : Bytes → Option (List (FailurePattern F))
  unfolding read_all pattern_of
  patterns_in body = b.decode_objects body >>= read_all pattern_of

  unfoldable pub fetch_patterns :
      Option WeaviateRepo → String → String → W → Result (List (FailurePattern F)) × W
  unfolding patterns_in synthetic_patterns cache_patterns_key patterns_query post_query
  fetch_patterns none tenant_id service w = (err not_initialised, w)
  fetch_patterns (some r) tenant_id service w =
      if is_empty r.endpoint
      then (ok (synthetic_patterns (b.now w) service), w)
      else (let key = cache_patterns_key tenant_id service in
          or_asked
            (λ v.
              or_synthetic (λ u. synthetic_patterns (b.now u) service) patterns_in
                (keep b.cache_set b.encode_patterns r.pattern_ttl key)
                (post_query b r (patterns_query tenant_id service) v))
            (cached b.cache_get b.read_patterns r.pattern_ttl key w))

  module _ ⦃s : Strings⦄ where
    unfoldable pub incidents_in : Bytes → Option (List (CorrelationResult F))
    unfolding read_all similar_of
    incidents_in body = b.decode_objects body >>= read_all similar_of

    unfoldable pub ask_similar :
        WeaviateRepo → String → List String → ℤ → W → Result (List (CorrelationResult F)) × W
    unfolding incidents_in synthetic_similar_incidents similar_query post_query
    ask_similar r tenant_id symptoms limit w =
        or_synthetic (λ v. synthetic_similar_incidents (b.now v) symptoms limit) incidents_in
          (keep b.cache_set b.encode_incidents r.similar_ttl (similar_key tenant_id symptoms limit))
          (post_query b r (similar_query tenant_id limit) w)

    unfoldable pub similar_incidents :
        Option WeaviateRepo → String → List String → ℤ → W → Result (List (CorrelationResult F)) × W
    unfolding ask_similar
    similar_incidents none tenant_id symptoms limit w = (err not_initialised, w)
    similar_incidents (some r) tenant_id symptoms limit w =
        if is_empty r.endpoint
        then (ok (synthetic_similar_incidents (b.now w) symptoms limit), w)
        else or_asked (ask_similar r tenant_id symptoms limit) (
            cached b.cache_get b.decode_incidents r.similar_ttl
              (similar_key tenant_id symptoms limit) w)

    unfoldable pub correlations_in : Bytes → Option (List (CorrelationResult F))
    unfolding read_all correlation_of
    correlations_in body = b.decode_objects body >>= read_all correlation_of

    abbrev listed :
        ListCorrelationsRequest
        → ℕ
        → ℕ
        → Result (Option Bytes) × W
        → Result (ListCorrelationsResponse F) × W
    listed req limit offset (err e, w) = (err e, w)
    listed req limit offset (ok none, w) = (ok (synthetic_correlation_list (b.now w) req), w)
    listed req limit offset (ok (some body), w) = (
      elim (correlations_in body) [
        | none ↦ err (b.decode_error body)
        | some found ↦ ok (page_of limit offset found)
      ],
      w,
    )

    unfoldable pub list_correlations :
        (String → Option ℤ)
        → Option WeaviateRepo
        → ListCorrelationsRequest
        → W
        → Result (ListCorrelationsResponse F) × W
    unfolding page_limit page_offset page_of correlations_in correlations_query
        synthetic_correlation_list post_query
    list_correlations atoi none req w = (err not_initialised, w)
    list_correlations atoi (some r) req w =
        if is_empty r.endpoint
        then (ok (synthetic_correlation_list (b.now w) req), w)
        else (let limit = page_limit req.page_size in
            let offset = page_offset atoi req.page_token in
            listed req limit offset (post_query b r (correlations_query req limit offset) w))
