-- ===== src/Recommend/Rules.antt =====
-- What the rule engine recommends, as a set.
use nrt_aggragator.Prelude.{Bool, List, String, ◌&&◌}
use nrt_aggragator.Prelude.Text.{Strings}
use nrt_aggragator.Models.{TimelineEvent, RedAnchor, InvestigationRequest}
use nrt_aggragator.Recommend.{Rule, is_seen, rule_applies}

module _ {ℓ} {F : Type ℓ} ⦃s : Strings⦄ (req : InvestigationRequest F)
    (anchors : List (RedAnchor F)) (timeline : List (TimelineEvent F)) where
  -- a rule that applies and names the text
  abbrev pub proposes : String → Rule → Bool
  proposes j rule = rule_applies rule req anchors timeline && is_seen rule.recommendations j
