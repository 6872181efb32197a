-- ===== src/Repo/Queries.antt =====
-- The texts of weaviate_repo.go: its queries, and its keys of the cache. The line breaks of a query
-- are single spaces here.
use Prim.Native.String.{◌++◌ as join}
use nrt_aggragator.Prelude.{ℕ, List, [], ◌∷◌, ◌++◌, String, if◌then◌else◌}
use nrt_aggragator.Prelude.Int.{ℤ, pos}
use nrt_aggragator.Prelude.Text.{Strings, is_empty}
use nrt_aggragator.Models.{Time, is_zero, CorrelationResult}
use nrt_aggragator.Repo.{Times}

-- `strings.Join`
unfoldable join_with : String → List String → String
join_with sep [] = ""
join_with sep (x ∷ []) = x
join_with sep (x ∷ y ∷ ys) = join x (join sep (join_with sep (y ∷ ys)))

pub record ListCorrelationsRequest : Type 0 where
  pub tenant_id : String
  pub service : String
  pub start : Time
  pub end_time : Time
  pub page_size : ℤ
  pub page_token : String

pub record ListCorrelationsResponse {ℓ} (F : Type ℓ) : Type ℓ where
  pub correlations : List (CorrelationResult F)
  pub next_page_token : String

-- an operand whose value is a text or a date, as it stands
abbrev operand : String → String → String → String → String
operand path operator kind value = join "{path: [\"" (
    join path (
      join "\"], operator: "
        (join operator (join ", " (join kind (join ": \"" (join value "\"}")))))))

unfoldable pub cache_patterns_key : String → String → String
cache_patterns_key tenant_id service = join "weaviate:patterns:" (join tenant_id (join ":" service))

unfoldable optional_service_operand : String → String
optional_service_operand service =
    if is_empty service
    then ""
    else join ", " (operand "services" "ContainsAny" "valueString" service)

unfoldable pub patterns_query : String → String → String
unfolding optional_service_operand
patterns_query tenant_id service =
    join "{ Get { FailurePattern( where: { operator: And operands: [ " (
      join (operand "tenantId" "Equal" "valueString" tenant_id) (
        join " " (
          join (optional_service_operand service)
            " ] } ) { patternId name description services anchorTemplates { service signalType selector typicalLeadLag thresholds } prevalence lastSeen quality { precision recall } } } }")))

module _ ⦃s : Strings⦄ where
  unfoldable pub cache_similar_incidents_key : String → List String → ℤ → String
  unfolding join_with
  cache_similar_incidents_key tenant_id symptoms limit =
      join "weaviate:similar:"
        (join tenant_id (join ":" (join (s.itoa limit) (join ":" (join_with "|" symptoms)))))

  unfoldable pub similar_query : String → ℤ → String
  similar_query tenant_id limit = join "{ Get { CorrelationRecord( limit: " (
      join (s.itoa limit) (
        join " where: { operator: And operands: [ " (
          join (operand "tenantId" "Equal" "valueString" tenant_id)
            " ] } ) { correlationId incidentId rootCause confidence affectedServices recommendations createdAt } } }")))

  module _ ⦃t : Times⦄ where
    abbrev filters : ListCorrelationsRequest → List String
    filters req =
        (operand "tenantId" "Equal" "valueString" req.tenant_id ∷ [])
        ++ ((if is_empty req.service
              then []
              else operand "affectedServices" "ContainsAny" "valueString" req.service ∷ [])
            ++ ((if is_zero req.start
                  then []
                  else operand "createdAt" "GreaterThanEqual" "valueDate" (t.format req.start) ∷ [])
                ++ (if is_zero req.end_time
                    then []
                    else operand "createdAt" "LessThanEqual" "valueDate" (t.format req.end_time)
                      ∷ [])))

    unfoldable build_correlation_where : ListCorrelationsRequest → String
    unfolding join_with
    build_correlation_where req =
        join "where: { operator: And, operands: [" (join (join_with "," (filters req)) "] }")

    unfoldable pub correlations_query : ListCorrelationsRequest → ℕ → ℕ → String
    unfolding build_correlation_where
    correlations_query req limit offset = join "{ Get { CorrelationRecord( limit: " (
        join (s.itoa (pos limit)) (
          join " offset: " (
            join (s.itoa (pos offset)) (
              join " " (
                join (build_correlation_where req)
                  " sort: [{path: \"createdAt\", order: desc}] ) { correlationId incidentId rootCause confidence affectedServices recommendations createdAt redAnchors { service selector dataType timestamp anomalyScore threshold } timeline { time event service severity anomalyScore dataSource } } } }")))))
