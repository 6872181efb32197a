-- ===== src/Tests/Store.antt =====
-- The theorems on the repository of correlations, at concrete inputs. The server has one
-- correlation, and answers a query that begins behind it with no object.
use mathlib.Core.List.Perm
use nrt_aggragator.Prelude.{
  ℕ, zero, suc, ◌≡◌, refl, List, [], ◌∷◌, map, String, Option, none, some, arith, if◌then◌else◌,
}
use nrt_aggragator.Prelude.Int.{ℤ, pos}
use nrt_aggragator.Prelude.Text.{contains}
use nrt_aggragator.Prelude.Dict.{get}
use nrt_aggragator.Prelude.Result.{ok}
use nrt_aggragator.Telemetry.{Bytes}
use nrt_aggragator.Models.{AnchorTemplate, FailurePattern, CorrelationResult}
use nrt_aggragator.Repo.{
  Object, property_text, property_texts, Times, or_now, build_pattern_properties,
  build_correlation_properties,
}
use nrt_aggragator.Repo.Records.{pattern_of, similar_of, correlation_of}
use nrt_aggragator.Repo.Queries.{similar_query, ListCorrelationsRequest, correlations_query}
use nrt_aggragator.Repo.Client.{Backend, Payload, object, query, WeaviateRepo, post_query}
use nrt_aggragator.Repo.Reads.{
  page_limit, correlations_in, incidents_in, similar_key, ask_similar, similar_incidents,
}
use nrt_aggragator.Repo.Stored.{
  without_threshold, pattern_of-build, reread_anchor, reread_event, correlation_of-build,
}
use nrt_aggragator.Repo.Paging.{Follows, IsServer, IsPrinted, list_correlations-Follows}
use nrt_aggragator.Repo.Similar.{similar_incidents-again}
use nrt_aggragator.Tests.Fixed.{Fixed, fixed_float, plain_strings}

abbrev number : ℕ → Fixed
number n = fixed_float.decimal n 0

-- every time is printed as the same text, which is read as 5
instance abbrev noon : Times
noon = record { format = λ t. "noon"; parse = λ s. pos 5; decode = λ s. some (pos 5) }

abbrev template : AnchorTemplate Fixed
template = record {
  service = "api";
  signal_type = "metrics";
  selector = "cpu_usage";
  typical_lag = number 1;
  threshold = number 8;
}

abbrev pattern : FailurePattern Fixed
pattern = record {
  id = "p";
  name = "saturation";
  description = "";
  services = "api" ∷ [];
  anchor_templates = template ∷ [];
  prevalence = number 1;
  last_seen = pos 5;
  precision = number 1;
  recall = number 0;
}

pattern_of-build_example :
    pattern_of (build_pattern_properties (pos 9) "acme" pattern)
    ≡ some (record pattern {
      last_seen = noon.parse (noon.format (or_now (pos 9) (pos 5)));
      anchor_templates = map without_threshold (template ∷ []);
    })
pattern_of-build_example = pattern_of-build (pos 9) "acme" pattern

abbrev correlation : CorrelationResult Fixed
correlation = record {
  correlation_id = "c";
  incident_id = "i";
  root_cause = "api";
  confidence = number 0;
  affected_services = "api" ∷ [];
  red_anchors = [];
  timeline = [];
  recommendations = [];
  created_at = pos 5;
}

correlation_of-build_example :
    correlation_of (build_correlation_properties (pos 9) "acme" correlation)
    ≡ some (record correlation {
      created_at = noon.parse (noon.format (or_now (pos 9) (pos 5)));
      red_anchors = map reread_anchor [];
      timeline = map reread_event [];
    })
correlation_of-build_example = correlation_of-build (pos 9) "acme" correlation

abbrev stored_object : Object Fixed
stored_object =
    ("correlationId", property_text "c")
    ∷ ("incidentId", property_text "i")
    ∷ ("rootCause", property_text "api")
    ∷ ("affectedServices", property_texts ("api" ∷ []))
    ∷ ("createdAt", property_text "noon")
    ∷ []

-- the body of a query tells its offset
abbrev body_of : Payload Fixed → Bytes
body_of (object class_name tenant id properties) = []
body_of (query text) = if contains text "offset: 1" then 1 ∷ [] else []

abbrev objects_of : Bytes → Option (List (Object Fixed))
objects_of [] = some (stored_object ∷ [])
objects_of (n ∷ ns) = some []

-- the world is what the cache holds
abbrev backend : Backend Fixed (Option Bytes)
backend = record {
  marshal = λ payload. ok (body_of payload);
  bad_url = λ url. none;
  send = λ url key body w. (ok (record { status = 200; body = body }), w);
  trimmed_text = λ body. "";
  decode_objects = objects_of;
  decode_error = λ body. "bad";
  cache_get = λ key w. (w, w);
  cache_set = λ key raw ttl w. some raw;
  encode_incidents = λ found. some (7 ∷ []);
  decode_incidents = λ raw. some (correlation ∷ []);
  encode_patterns = λ found. none;
  read_patterns = λ raw. none;
  now = λ w. pos 9;
  trim_right = λ s. s;
}

abbrev repo : WeaviateRepo
repo = record {
  endpoint = "http://weaviate";
  api_key = "";
  timeout = pos 1;
  similar_ttl = pos 1;
  pattern_ttl = pos 0;
}

abbrev request : ListCorrelationsRequest
request = record {
  tenant_id = "acme";
  service = "";
  start = pos 0;
  end_time = pos 0;
  page_size = pos 1;
  page_token = "";
}

abbrev atoi : String → Option ℤ
atoi text = if contains text "1" then some (pos 1) else some (pos 0)

backend-IsServer : IsServer backend atoi repo request (correlation ∷ [])
unfolding page_limit post_query correlations_query correlations_in correlation_of contains get
backend-IsServer w zero h = ([], w, refl, refl)
backend-IsServer w (suc zero) h = (1 ∷ [], w, refl, refl)
backend-IsServer w (suc (suc n)) h = absurd (omega arith)

offsets-IsPrinted : IsPrinted backend atoi repo request (correlation ∷ [])
unfolding contains
offsets-IsPrinted zero h = (refl, refl)
offsets-IsPrinted (suc zero) h = (refl, refl)
offsets-IsPrinted (suc (suc n)) h = absurd (omega arith)

list_correlations-Follows_example : Follows backend atoi repo request "" none (correlation ∷ [])
list_correlations-Follows_example =
    list_correlations-Follows backend atoi repo request (correlation ∷ []) none backend-IsServer
      offsets-IsPrinted refl

similar_incidents-again_example :
    let after = (ask_similar backend repo "acme" ("b" ∷ "a" ∷ []) (pos 2) none).1 in
    similar_incidents backend (some repo) "acme" ("a" ∷ "b" ∷ []) (pos 2) after ≡ (
      ok (correlation ∷ []),
      (backend.cache_get (similar_key "acme" ("b" ∷ "a" ∷ []) (pos 2)) after).1,
    )
unfolding post_query incidents_in similar_of contains get similar_query
similar_incidents-again_example =
    similar_incidents-again backend repo "acme" ("b" ∷ "a" ∷ []) (pos 2) ("a" ∷ "b" ∷ []) none none
      [] (7 ∷ []) (correlation ∷ []) (Perm.swap "a" "b" []) refl refl refl refl refl refl refl
      (λ u. refl)
