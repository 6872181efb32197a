-- ===== src/Patterns.antt =====
-- mirador-rca-main/internal/patterns/miner.go: failure patterns mined from the history. Aggregates
-- are shared by pointer in the source; every change is to the entry of the map, and so it is here.
-- A `range` over a map visits its keys in an order that is a parameter.
pub mod Mined
use Prim.Native.String.{◌++◌ as join}
use nrt_aggragator.Prelude.{
  ℕ, ◌+◌, Bool, List, [], ◌∷◌, map, String, if◌then◌else◌, Option, none, some, ltb, ◌==◌, length,
  take, is_nil,
}
use nrt_aggragator.Prelude.Int.{pos, ltb_ℤ}
use nrt_aggragator.Prelude.Sort.{sort}
use nrt_aggragator.Prelude.Text.{is_empty, contains}
use nrt_aggragator.Prelude.Dict.{Dict, get, put}
use nrt_aggragator.Prelude.Float.{Float, nought, of_ℕ, gt}
use nrt_aggragator.Models.{Time, RedAnchor, CorrelationResult, AnchorTemplate, FailurePattern}

-- `m[key]` where a missing key reads as the zero value
abbrev pub get_or_zero {ℓ} : {V : Type ℓ} → V → Dict V → String → V
get_or_zero zero_value m key = elim (get m key) [ none ↦ zero_value | some v ↦ v ]

pub record ServiceAggregate {ℓ} (F : Type ℓ) : Type ℓ where
  pub count : ℕ
  pub total_correlations : ℕ
  pub last_seen : Time
  pub anchor_counts : Dict ℕ
  pub anchor_scores : Dict F

abbrev pub service_key : String → String
service_key service = if is_empty service then "unknown" else service

unfoldable pub infer_signal_type : String → String
infer_signal_type selector =
    if contains selector "log"
    then "logs"
    else if contains selector "trace"
    then "traces"
    else "metrics"

module _ {ℓ} {F : Type ℓ} where
  abbrev pub new_aggregate : ServiceAggregate F
  new_aggregate = record {
    count = 0;
    total_correlations = 0;
    last_seen = pos 0;
    anchor_counts = [];
    anchor_scores = [];
  }

  unfoldable pub ensure_aggregate : Dict (ServiceAggregate F) → String → ServiceAggregate F
  ensure_aggregate m service = get_or_zero new_aggregate m (service_key service)

  -- the map after a change of the aggregate that `ensureAggregate` returns
  unfoldable pub change :
      Dict (ServiceAggregate F)
      → String
      → (ServiceAggregate F → ServiceAggregate F)
      → Dict (ServiceAggregate F)
  unfolding ensure_aggregate
  change m service g = put m (service_key service) (g (ensure_aggregate m service))

  abbrev see : Time → ServiceAggregate F → ServiceAggregate F
  see created_at agg = record agg {
    last_seen = if ltb_ℤ agg.last_seen created_at then created_at else agg.last_seen;
  }

  abbrev pub count_service : Time → ServiceAggregate F → ServiceAggregate F
  count_service created_at agg = see created_at (record agg { count = agg.count + 1 })

  abbrev pub count_correlation : ServiceAggregate F → ServiceAggregate F
  count_correlation agg = record agg { total_correlations = agg.total_correlations + 1 }

  unfoldable pub count_services :
      Time → Dict (ServiceAggregate F) → List String → Dict (ServiceAggregate F)
  unfolding change
  count_services created_at m [] = m
  count_services created_at m (service ∷ services) =
      count_services created_at (change m service (count_service created_at)) services

  unfoldable pub count_correlations :
      Dict (ServiceAggregate F) → List String → Dict (ServiceAggregate F)
  unfolding change
  count_correlations m [] = m
  count_correlations m (service ∷ services) =
      count_correlations (change m service count_correlation) services

  unfoldable pub top_selectors : (List String → List String) → ServiceAggregate F → ℕ → List String
  top_selectors range agg limit =
      let selectors =
        sort (λ a b. ltb (get_or_zero 0 agg.anchor_counts b) (get_or_zero 0 agg.anchor_counts a))
          (range (map (λ e. e.0) agg.anchor_counts)) in
      if ltb limit (length selectors) then take limit selectors else selectors

module _ {ℓ} {F : Type ℓ} ⦃f : Float F⦄ where
  abbrev pub count_anchor : Time → RedAnchor F → ServiceAggregate F → ServiceAggregate F
  count_anchor created_at anchor agg =
      let key = anchor.selector in
      if is_empty key
      then agg
      else see created_at (record agg {
        anchor_counts = put agg.anchor_counts key (get_or_zero 0 agg.anchor_counts key + 1);
        anchor_scores =
            put agg.anchor_scores key
              (f.add (get_or_zero nought agg.anchor_scores key) anchor.anomaly_score);
      })

  unfoldable pub count_anchors :
      Time → Dict (ServiceAggregate F) → List (RedAnchor F) → Dict (ServiceAggregate F)
  unfolding change
  count_anchors created_at m [] = m
  count_anchors created_at m (anchor ∷ anchors) =
      count_anchors created_at (change m anchor.service (count_anchor created_at anchor)) anchors

  -- The body of the loop over the correlations. The `seen` map is written and never read.
  unfoldable pub aggregate :
      Dict (ServiceAggregate F) → CorrelationResult F → Dict (ServiceAggregate F)
  unfolding count_services count_anchors count_correlations
  aggregate m corr =
      let counted = count_services corr.created_at m corr.affected_services in
      let anchored = count_anchors corr.created_at counted corr.red_anchors in
      count_correlations anchored corr.affected_services

  unfoldable pub aggregate_all :
      Dict (ServiceAggregate F) → List (CorrelationResult F) → Dict (ServiceAggregate F)
  unfolding aggregate
  aggregate_all m [] = m
  aggregate_all m (corr ∷ corrs) = aggregate_all (aggregate m corr) corrs

  unfoldable pub template_of : String → ServiceAggregate F → String → AnchorTemplate F
  template_of service agg sel = record {
    service = service;
    signal_type = infer_signal_type sel;
    selector = sel;
    typical_lag = f.decimal 1 0;
    threshold =
        f.div (get_or_zero nought agg.anchor_scores sel)
          (of_ℕ (get_or_zero 0 agg.anchor_counts sel));
  }

  unfoldable pub pattern_of :
      (List String → List String) → ℕ → String → ServiceAggregate F → FailurePattern F
  unfolding template_of
  pattern_of range total service agg = record {
    id = join "pattern-" service;
    name = join service " hotspot";
    description = "Auto-mined pattern based on historical anomalies";
    services = service ∷ [];
    anchor_templates = map (template_of service agg) (top_selectors range agg 3);
    prevalence = f.div (of_ℕ agg.count) (of_ℕ total);
    last_seen = agg.last_seen;
    precision = f.decimal 5 1;
    recall = f.decimal 5 1;
  }

  -- the body of the loop over the aggregates
  unfoldable pub add_pattern :
      (List String → List String)
      → ℕ
      → String
      → Option (ServiceAggregate F)
      → List (FailurePattern F)
      → List (FailurePattern F)
  unfolding pattern_of
  add_pattern range total service none rest = rest
  add_pattern range total service (some agg) rest =
      if agg.total_correlations == 0 then rest else pattern_of range total service agg ∷ rest

  unfoldable pub patterns_of :
      (List String → List String)
      → ℕ
      → Dict (ServiceAggregate F)
      → List String
      → List (FailurePattern F)
  unfolding add_pattern
  patterns_of range total stats [] = []
  patterns_of range total stats (service ∷ services) =
      add_pattern range total service (get stats service) (patterns_of range total stats services)

  unfoldable pub more_prevalent : FailurePattern F → FailurePattern F → Bool
  more_prevalent a b = gt a.prevalence b.prevalence

  -- The patterns, and what is passed to `StorePatterns` if there is a store; its error is logged.
  unfoldable pub mine :
      (List String → List String)
      → Bool
      → List (CorrelationResult F)
      → List (FailurePattern F) × Option (List (FailurePattern F))
  unfolding aggregate_all patterns_of more_prevalent
  mine range has_store [] = ([], none)
  mine range has_store (corr ∷ corrs) =
      let stats = aggregate_all [] (corr ∷ corrs) in
      let patterns =
        sort more_prevalent
          (patterns_of range (length (corr ∷ corrs)) stats (range (map (λ e. e.0) stats))) in
      (patterns, if has_store then (if is_nil patterns then none else some patterns) else none)
