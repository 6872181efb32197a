-- ===== src/Causality.antt =====
-- mirador-rca-main/internal/engine/causality.go. The engine's state is its logger only.
pub mod Score
pub mod Upstream
use Prim.Native.String.{◌++◌}
use nrt_aggragator.Prelude.{
  ℕ, zero, suc, ◌+◌, Bool, true, not, ◌||◌, List, [], ◌∷◌, String, if◌then◌else◌, ◌==◌, Option,
  none, some,
}
use mathlib.Core.List.{◌++◌ as append}
use nrt_aggragator.Prelude.Int.{ltb_ℤ, pos}
use nrt_aggragator.Prelude.Text.{Strings, equal_fold, is_empty}
use nrt_aggragator.Prelude.Float.{Float, gt, nought, unit, of_ℕ}
use nrt_aggragator.Models.{Time, is_zero, TimelineEvent, ServiceGraphEdge}

pub record CausalityResult {ℓ} (F : Type ℓ) : Type ℓ where
  pub score : F
  pub notes : List String
  pub suggested_service : String

-- the locals that the loop of `Evaluate` changes
pub record Tally {ℓ} (F : Type ℓ) : Type ℓ where
  pub total_upstream : ℕ
  pub supporting : ℕ
  pub notes : List String
  pub suggested : ServiceGraphEdge F

module _ {ℓ} {F : Type ℓ} ⦃f : Float F⦄ where
  unfoldable pub clamp : F → F → F → F
  clamp value min max = if f.lt value min then min else if gt value max then max else value

  pub suggested_edge_set : ServiceGraphEdge F → Bool
  suggested_edge_set edge = not (is_empty edge.source) || not (is_empty edge.target)

  abbrev pub empty_edge : ServiceGraphEdge F
  empty_edge = record { source = ""; target = ""; call_rate = nought; error_rate = nought }

  abbrev pub empty_tally : Tally F
  empty_tally = record { total_upstream = 0; supporting = 0; notes = []; suggested = empty_edge }

  abbrev pub no_result : CausalityResult F
  no_result = record { score = nought; notes = []; suggested_service = "" }

  -- what `Evaluate` makes of the tally
  pub conclude : Tally F → CausalityResult F
  unfolding clamp suggested_edge_set
  conclude t =
      if t.total_upstream == 0
      then record { score = nought; notes = t.notes; suggested_service = "" }
      else (let ratio = f.div (of_ℕ t.supporting) (of_ℕ t.total_upstream) in
          let low = if f.lt ratio nought then nought else ratio in
          let score = if gt low unit then unit else low in
          record {
            score = clamp (f.add (f.decimal 4 1) (f.mul (f.decimal 6 1) score)) nought unit;
            notes = t.notes;
            suggested_service = if suggested_edge_set t.suggested then t.suggested.source else "";
          })

module _ {ℓ} {F : Type ℓ} ⦃s : Strings⦄ where
  -- `rootEventTime` and `firstEventTime` are one function under two names.
  unfoldable pub root_event_time : String → List (TimelineEvent F) → Time
  root_event_time service [] = pos 0
  root_event_time service (e ∷ es) =
      if equal_fold e.service service then e.time else root_event_time service es

module _ {ℓ} {F : Type ℓ} ⦃f : Float F⦄ ⦃s : Strings⦄ where
  -- A source without an event counts by its error rate.
  pub silent_source : String → ServiceGraphEdge F → Tally F → Tally F
  unfolding suggested_edge_set
  silent_source root edge t =
      if gt edge.error_rate nought
      then record t {
        supporting = t.supporting + 1;
        notes = append t.notes ((edge.source ++ (" error rate influencing " ++ root)) ∷ []);
        suggested =
            if not (suggested_edge_set t.suggested) || gt edge.error_rate t.suggested.error_rate
            then edge
            else t.suggested;
      }
      else t

  pub timed_source : String → Time → Time → ServiceGraphEdge F → Tally F → Tally F
  unfolding suggested_edge_set
  timed_source root root_time source_time edge t =
      if ltb_ℤ source_time root_time
      then record t {
        supporting = t.supporting + 1;
        notes = append t.notes ((edge.source ++ (" precedes " ++ root)) ∷ []);
        suggested =
            if not (suggested_edge_set t.suggested) || gt edge.call_rate t.suggested.call_rate
            then edge
            else t.suggested;
      }
      else record t { notes = append t.notes ((edge.source ++ " occurs after root cause") ∷ []) }

  -- one round of the loop
  pub weigh_edge : String → Time → List (TimelineEvent F) → ServiceGraphEdge F → Tally F → Tally F
  unfolding silent_source timed_source
  weigh_edge root root_time timeline edge t =
      if not (equal_fold edge.target root)
      then t
      else (let t' = record t { total_upstream = t.total_upstream + 1 } in
          let source_time = root_event_time edge.source timeline in
          if is_zero source_time
          then silent_source root edge t'
          else timed_source root root_time source_time edge t')

  pub weigh_edges :
      String → Time → List (TimelineEvent F) → List (ServiceGraphEdge F) → Tally F → Tally F
  unfolding weigh_edge
  weigh_edges root root_time timeline [] t = t
  weigh_edges root root_time timeline (edge ∷ edges) t =
      weigh_edges root root_time timeline edges (weigh_edge root root_time timeline edge t)

  -- the time of the root's first event, or else of the first event
  pub root_time_of : String → TimelineEvent F → List (TimelineEvent F) → Time
  root_time_of root e es = let t = root_event_time root (e ∷ es) in if is_zero t then e.time else t

  unfoldable pub evaluate :
      String → List (TimelineEvent F) → List (ServiceGraphEdge F) → CausalityResult F
  unfolding weigh_edges conclude root_time_of
  evaluate root [] edges = no_result
  evaluate root (e ∷ es) [] = no_result
  evaluate root (e ∷ es) (g ∷ gs) =
      if is_empty root
      then no_result
      else conclude (weigh_edges root (root_time_of root e es) (e ∷ es) (g ∷ gs) empty_tally)
