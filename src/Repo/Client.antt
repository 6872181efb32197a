-- ===== src/Repo/Client.antt =====
-- The methods of WeaviateRepo that store. A nil receiver is `none`. The state of the world behind HTTP and the
-- cache is a parameter, and each call gives the world after it.
use Prim.Native.String.{◌++◌ as join}
use nrt_aggragator.Prelude.{
  ℕ, suc, Bool, not, ◌||◌, List, [], ◌∷◌, String, if◌then◌else◌, Option, none, some, ltb, leb, ◌==◌,
}
use nrt_aggragator.Prelude.Int.{ℤ, pos}
use nrt_aggragator.Prelude.Text.{is_empty}
use nrt_aggragator.Prelude.Result.{Result, ok, err, wrap}
use nrt_aggragator.Telemetry.{Bytes}
use nrt_aggragator.Models.{Time, CorrelationResult, FailurePattern}
use nrt_aggragator.Repo.{
  Object, Feedback, Times, build_pattern_properties, build_feedback_properties,
  build_correlation_properties,
}

-- what is posted: an object of a class, with a tenant and an id where they are given, or a query
pub data Payload {ℓ} (F : Type ℓ) : Type ℓ where
  object : (class_name : String) (tenant id : Option String) (properties : Object F) → Payload F
  query : String → Payload F

pub record Response : Type 0 where
  pub status : ℕ
  pub body : Bytes

-- The parts that are not in this file: JSON, HTTP with its `Do` and the reading of bodies, the
-- cache and the clock.
pub record Backend {ℓ} (F W : Type ℓ) : Type ℓ where
  pub marshal : Payload F → Result Bytes
  -- `http.NewRequest` fails on a URL that cannot be parsed.
  pub bad_url : String → Option String
  -- the URL, the key and the body
  pub send : String → String → Bytes → W → Result Response × W
  pub trimmed_text : Bytes → String
  -- the objects in the answer to a query, and the error of a body that cannot be decoded
  pub decode_objects : Bytes → Option (List (Object F))
  pub decode_error : Bytes → String
  pub cache_get : String → W → Option Bytes × W
  pub cache_set : String → Bytes → ℤ → W → W
  pub encode_incidents : List (CorrelationResult F) → Option Bytes
  pub decode_incidents : Bytes → Option (List (CorrelationResult F))
  pub encode_patterns : List (FailurePattern F) → Option Bytes
  pub read_patterns : Bytes → Option (List (FailurePattern F))
  pub now : W → Time
  pub trim_right : String → String

pub record WeaviateRepo : Type 0 where
  pub endpoint : String
  pub api_key : String
  pub timeout : ℤ
  pub similar_ttl : ℤ
  pub pattern_ttl : ℤ

abbrev pub not_initialised : String
not_initialised = "weaviate repo not initialised"

abbrev positive_or : ℤ → ℤ → ℤ
positive_or (pos (suc n)) def = pos (suc n)
positive_or _ def = def

-- a text that is given, if it is not empty
abbrev given : String → Option String
given s = if is_empty s then none else some s

module _ {ℓ} {F W : Type ℓ} (b : Backend F W) where
  -- 5 s if no time is given; no negative time to live. The cache is part of the backend.
  unfoldable new_weaviate_repo : String → String → ℤ → ℤ → ℤ → WeaviateRepo
  new_weaviate_repo endpoint api_key timeout similar_ttl pattern_ttl = record {
    endpoint = b.trim_right endpoint;
    api_key = api_key;
    timeout = positive_or timeout (pos 5_000_000_000);
    similar_ttl = positive_or similar_ttl (pos 0);
    pattern_ttl = positive_or pattern_ttl (pos 0);
  }

  abbrev is_success : ℕ → Bool
  is_success status = not (ltb status 200 || leb 300 status)

  -- `Do`, and what a store makes of its answer: nothing, or an error
  abbrev pub stored : String → Result Response × W → Option String × W
  stored failure (err e, w) = (some e, w)
  stored failure (ok resp, w) =
      (if is_success resp.status then none else some (join failure (b.trimmed_text resp.body)), w)

  abbrev new_request : WeaviateRepo → String → String → Bytes → W → Option String × W
  new_request r url failure body w = elim (b.bad_url url) [
    | some e ↦ (some e, w)
    | none ↦ stored failure (b.send url r.api_key body w)
  ]

  abbrev post_body : WeaviateRepo → String → Result Bytes → W → Option String × W
  post_body r failure (err e) w = (some e, w)
  post_body r failure (ok body) w = new_request r (join r.endpoint "/v1/objects") failure body w

  unfoldable post_object : WeaviateRepo → String → Payload F → W → Option String × W
  post_object r failure payload = post_body r failure (b.marshal payload)

  -- What a query makes of an answer of the server: its body, or none where the server could not be
  -- asked. An error is one of the request itself.
  abbrev pub answered : Result Response × W → Result (Option Bytes) × W
  answered (err e, w) = (ok none, w)
  answered (ok resp, w) = (if resp.status == 200 then ok (some resp.body) else ok none, w)

  abbrev ask : WeaviateRepo → Result Bytes → W → Result (Option Bytes) × W
  ask r (err e) w = (err e, w)
  ask r (ok body) w = elim (b.bad_url (join r.endpoint "/v1/graphql")) [
    | some e ↦ (err e, w)
    | none ↦ answered (b.send (join r.endpoint "/v1/graphql") r.api_key body w)
  ]

  unfoldable pub post_query : WeaviateRepo → String → W → Result (Option Bytes) × W
  post_query r text = ask r (b.marshal (query text))

module _ {ℓ} {F W : Type ℓ} ⦃t : Times⦄ (b : Backend F W) where
  unfoldable pattern_payload : Time → String → FailurePattern F → Payload F
  unfolding build_pattern_properties
  pattern_payload now tenant_id p =
      object "FailurePattern" (some tenant_id) (given p.id)
        (build_pattern_properties now tenant_id p)

  -- The first pattern that cannot be stored ends the loop.
  unfoldable store_all : WeaviateRepo → String → List (FailurePattern F) → W → Option String × W
  unfolding pattern_payload post_object
  store_all r tenant_id [] w = (none, w)
  store_all r tenant_id (p ∷ ps) w =
      let done =
        post_object b r "store pattern failed: " (pattern_payload (b.now w) tenant_id p) w in
      elim done.0 [ none ↦ store_all r tenant_id ps done.1 | some e ↦ (some e, done.1) ]

  unfoldable store_patterns :
      Option WeaviateRepo → String → List (FailurePattern F) → W → Option String × W
  unfolding store_all
  store_patterns none tenant_id patterns w = (some not_initialised, w)
  store_patterns (some r) tenant_id patterns w =
      if is_empty r.endpoint then (none, w) else store_all r tenant_id patterns w

  unfoldable pub store_feedback : Option WeaviateRepo → Feedback → W → Option String × W
  unfolding post_object build_feedback_properties
  store_feedback none feedback w = (some not_initialised, w)
  store_feedback (some r) feedback w =
      if is_empty r.endpoint
      then (none, w)
      else post_object b r "store feedback failed: "
          (object "CorrelationFeedback" (some feedback.tenant_id) none
            (build_feedback_properties (b.now w) feedback))
          w

  -- an error of the encoding is wrapped here
  unfoldable store_correlation :
      Option WeaviateRepo → String → CorrelationResult F → W → Option String × W
  unfolding build_correlation_properties
  store_correlation none tenant_id c w = (some not_initialised, w)
  store_correlation (some r) tenant_id c w =
      if is_empty r.endpoint
      then (none, w)
      else post_body b r "weaviate store correlation failed: "
          (wrap "marshal correlation: " (
            b.marshal (
              object "CorrelationRecord" (given tenant_id) (given c.correlation_id)
                (build_correlation_properties (b.now w) tenant_id c))))
          w
