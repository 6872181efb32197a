-- ===== src/Recommend.antt =====
-- mirador-rca-main/internal/engine/recommend.go: recommendations by rules. Reading the rules from
-- their YAML file is not modelled: an engine is the list of its rules, `none` for the nil engine.
pub mod Unique
pub mod Rules
use text.Mathlib.Text.{◌==◌}
use nrt_aggragator.Prelude.{
  Bool, true, false, not, ◌&&◌, List, [], ◌∷◌, ◌++◌, String, if◌then◌else◌, Option, none, some, any,
  is_nil,
}
use nrt_aggragator.Prelude.Text.{Strings, equal_fold, is_empty, contains, to_lower}
use nrt_aggragator.Models.{TimelineEvent, RedAnchor, InvestigationRequest}

pub record RuleMatch : Type 0 where
  pub service : String
  pub severity : String
  pub selector_contains : List String

pub record Rule : Type 0 where
  pub id : String
  pub when : RuleMatch
  pub recommendations : List String

-- membership in the `seen` map, whose keys are the texts of the list so far
unfoldable pub is_seen : List String → String → Bool
is_seen [] item = false
is_seen (x ∷ xs) item = if x == item then true else is_seen xs item

-- one round of the loop over the additions
unfoldable pub add_unique : List String → String → List String
add_unique existing item =
    if is_empty item
    then existing
    else if is_seen existing item
    then existing
    else existing ++ (item ∷ [])

unfoldable pub append_unique : List String → List String → List String
append_unique existing [] = existing
append_unique existing (item ∷ items) = append_unique (add_unique existing item) items

abbrev selector_has : ⦃s : Strings⦄ → String → String → Bool
selector_has selector keyword = not (is_empty keyword) && contains selector (to_lower keyword)

module _ {ℓ} {F : Type ℓ} ⦃s : Strings⦄ where
  unfoldable service_matches : String → InvestigationRequest F → List (RedAnchor F) → Bool
  service_matches service req anchors =
      if any (equal_fold service) req.affected_services
      then true
      else any (λ a. equal_fold service a.service) anchors

  unfoldable timeline_has_severity : String → List (TimelineEvent F) → Bool
  timeline_has_severity severity events =
      if is_empty severity then true else any (λ ev. equal_fold severity ev.severity) events

  unfoldable anchors_contain : List String → List (RedAnchor F) → Bool
  anchors_contain [] anchors = true
  anchors_contain (k ∷ ks) anchors =
      any (λ a. any (selector_has (to_lower a.selector)) (k ∷ ks)) anchors

  -- the three `continue` tests of the loop
  unfoldable pub rule_applies :
      Rule → InvestigationRequest F → List (RedAnchor F) → List (TimelineEvent F) → Bool
  unfolding service_matches timeline_has_severity anchors_contain
  rule_applies rule req anchors timeline =
      if not (is_empty rule.when.service) && not (service_matches rule.when.service req anchors)
      then false
      else if not (is_empty rule.when.severity)
          && not (timeline_has_severity rule.when.severity timeline)
      then false
      else if not (is_nil rule.when.selector_contains)
          && not (anchors_contain rule.when.selector_contains anchors)
      then false
      else true

  unfoldable pub recommend_from :
      List String
      → List Rule
      → InvestigationRequest F
      → List (RedAnchor F)
      → List (TimelineEvent F)
      → List String
  unfolding rule_applies append_unique
  recommend_from matched [] req anchors timeline = matched
  recommend_from matched (rule ∷ rules) req anchors timeline =
      recommend_from
        (if rule_applies rule req anchors timeline
          then append_unique matched rule.recommendations
          else matched)
        rules req anchors timeline

  unfoldable pub recommend :
      Option (List Rule)
      → InvestigationRequest F
      → List (RedAnchor F)
      → List (TimelineEvent F)
      → List String
  unfolding recommend_from
  recommend none req anchors timeline = []
  recommend (some rules) req anchors timeline = recommend_from [] rules req anchors timeline
