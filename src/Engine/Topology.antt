-- ===== src/Engine/Topology.antt =====
-- The steps of pipeline.go that read the service graph.
use Prim.Native.String.{◌++◌ as join}
use text.Mathlib.Text.{◌==◌}
use nrt_aggragator.Prelude.{Bool, ◌||◌, List, [], ◌∷◌, ◌++◌, map, String, if◌then◌else◌, take}
use nrt_aggragator.Prelude.Int.{◌+ℤ◌}
use nrt_aggragator.Prelude.Sort.{sort}
use nrt_aggragator.Prelude.Text.{Strings}
use nrt_aggragator.Prelude.Float.{Float, nought, gt}
use nrt_aggragator.Models.{
  Time, is_zero, half_second, minus_half_second, severity_low, data_type_traces, TimelineEvent,
  ServiceGraphEdge,
}
use nrt_aggragator.Causality.{root_event_time}
use nrt_aggragator.Recommend.{is_seen}
use nrt_aggragator.Engine.Steps.{earlier}

-- `set[key] = struct{}{}`
unfoldable pub set_add : List String → String → List String
unfolding is_seen
set_add keys key = if is_seen keys key then keys else keys ++ (key ∷ [])

module _ {ℓ} {F : Type ℓ} where
  unfoldable pub neighbor_set : List String → List (ServiceGraphEdge F) → String → List String
  unfolding set_add
  neighbor_set keys [] service = keys
  neighbor_set keys (edge ∷ edges) service =
      let keys' = if edge.source == service then set_add keys edge.target else keys in
      let keys'' = if edge.target == service then set_add keys' edge.source else keys' in
      neighbor_set keys'' edges service

  -- `range` is the order in which the keys of the map are visited.
  unfoldable pub neighbor_services :
      (List String → List String) → List (ServiceGraphEdge F) → String → List String
  unfolding neighbor_set
  neighbor_services range edges service = range (neighbor_set [] edges service)

  unfoldable pub related_edges : List (ServiceGraphEdge F) → String → List (ServiceGraphEdge F)
  related_edges [] service = []
  related_edges (edge ∷ edges) service =
      let rest = related_edges edges service in
      if edge.source == service || edge.target == service then edge ∷ rest else rest

module _ {ℓ} {F : Type ℓ} ⦃f : Float F⦄ where
  topology_event : String → Time → ServiceGraphEdge F → TimelineEvent F
  topology_event service root_time edge =
      let rate =
        if gt edge.error_rate nought
        then join " (error rate " (join (f.format 2 edge.error_rate) "%)")
        else "" in
      let arrow = join edge.source (join " -> " edge.target) in
      if edge.target == service
      then record {
        time = root_time +ℤ minus_half_second;
        event = join (join "Service graph: upstream " arrow) rate;
        service = edge.source;
        severity = severity_low;
        anomaly_score = nought;
        data_source = data_type_traces;
      }
      else record {
        time = root_time +ℤ half_second;
        event = join (join "Service graph: " arrow) rate;
        service = edge.target;
        severity = severity_low;
        anomaly_score = nought;
        data_source = data_type_traces;
      }

  abbrev calls_more : ServiceGraphEdge F → ServiceGraphEdge F → Bool
  calls_more a b = gt a.call_rate b.call_rate

  module _ ⦃s : Strings⦄ where
    unfoldable pub topology_events :
        Time → List (TimelineEvent F) → String → List (ServiceGraphEdge F) → List (TimelineEvent F)
    unfolding topology_event
    topology_events now timeline service related =
        let t = root_event_time service timeline in
        let root_time = if is_zero t then now else t in
        map (topology_event service root_time) (take 2 (sort calls_more related))

    -- Without related edges the timeline is returned as it is, in its order.
    unfoldable pub append_topology_events :
        Time → List (TimelineEvent F) → String → List (ServiceGraphEdge F) → List (TimelineEvent F)
    unfolding topology_events
    append_topology_events now timeline service edges = elim (related_edges edges service) [
      | [] ↦ timeline
      | e ∷ es ↦ sort earlier (timeline ++ topology_events now timeline service (e ∷ es))
    ]
