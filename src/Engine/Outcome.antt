-- ===== src/Engine/Outcome.antt =====
-- What an investigation answers and stores.
use native.Mathlib.Nat.{le_trans}
use nrt_aggragator.Prelude.{
  ◌+◌, ◌≤◌, ◌≡◌, ◌≢◌, refl, Bool, List, [], ◌∷◌, ◌++◌, String, arith, Bool-cases, inl, inr, length,
  Option, none, some, Option-cases, length-append, length-map, length-take, if◌then◌else◌,
}
use nrt_aggragator.Prelude.Sort.{length-sort, sort-IsSorted, IsSorted}
use nrt_aggragator.Prelude.Int.{ltb_ℤ_asym}
use nrt_aggragator.Prelude.Text.{Strings}
use nrt_aggragator.Prelude.Float.{Float, IsOrdered, nought}
use nrt_aggragator.Prelude.Result.{Result, ok, err}
use nrt_aggragator.Models.{
  Time, RedAnchor, TimelineEvent, CorrelationResult, InvestigationRequest, ServiceGraphEdge,
}
use nrt_aggragator.Causality.Score.{IsScore, clamp-IsScore}
use nrt_aggragator.Engine.Steps.{calibrate_confidence, earlier}
use nrt_aggragator.Engine.Topology.{related_edges, topology_events, append_topology_events}
use nrt_aggragator.Engine.Anchors.{length-build_timeline, length-build_anchors}
use nrt_aggragator.Engine.{
  Pipeline, WeaviateClient, Surroundings, Signals, determine_service, or_else, CoreClient,
  graph_or_empty, default_recommendations, recommend_from_rules, fetch_recommendations,
  fetch_signals, analyze, persist_result, investigate,
}

module _ {ℓ} {F : Type ℓ} ⦃f : Float F⦄ (laws : IsOrdered F) where
  -- A calibrated confidence that is a number lies between 0 and 1.
  calibrate_confidence-IsScore :
      (base causality : F) → IsScore (calibrate_confidence base causality)
  unfolding calibrate_confidence
  calibrate_confidence-IsScore base causality = elim (Bool-cases (f.le causality nought)) [
    | inl weak ↦ rw weak (clamp-IsScore laws _)
    | inr strong ↦ rw strong (clamp-IsScore laws _)
  ]

or_else-ne-nil {ℓ} : {A : Type ℓ} (xs d : List A) → d ≢ [] → or_else xs d ≢ []
or_else-ne-nil [] d n = n
or_else-ne-nil (x ∷ xs) d n = λ e. cc

or_else_default : (xs : List String) → or_else xs default_recommendations ≢ []
or_else_default xs = or_else-ne-nil xs default_recommendations (λ e. cc)

module _ {ℓ} {F : Type ℓ} ⦃s : Strings⦄ where
  -- Whatever the clients answer, there is a recommendation.
  fetch_recommendations-ne-nil :
      (p : Pipeline F) (req : InvestigationRequest F) (anchors : List (RedAnchor F))
      (timeline : List (TimelineEvent F))
      → fetch_recommendations p req anchors timeline ≢ []
  unfolding fetch_recommendations recommend_from_rules
  fetch_recommendations-ne-nil p req anchors timeline = elim (Option-cases p.weaviate) [
    | inl none_there ↦ rw (none_there, fetch_recommendations) (or_else_default _)
    | inr (w, there) ↦ rw (there, fetch_recommendations) (or_else-ne-nil _ _ (or_else_default _))
  ]

module _ {ℓ} {F : Type ℓ} ⦃f : Float F⦄ ⦃s : Strings⦄ where
  length-append_topology_events :
      (now : Time) (timeline : List (TimelineEvent F)) (service : String)
      (edges : List (ServiceGraphEdge F))
      → length (append_topology_events now timeline service edges) ≤ length timeline + 2
  unfolding append_topology_events topology_events
  length-append_topology_events now timeline service edges = go (related_edges edges service) refl
    where
      go :
          (related : List (ServiceGraphEdge F))
          → related_edges edges service ≡ related
          → length (append_topology_events now timeline service edges) ≤ length timeline + 2
      go [] e = rw (e, append_topology_events) (omega arith)
      go (g ∷ gs) e =
          rw (e, append_topology_events, length-sort, length-append, length-map, length-take)
            (omega arith)

  extended_le :
      (b : Bool) (xs : List (TimelineEvent F)) (x : TimelineEvent F)
      → length xs ≤ 10
      → length (if b then xs ++ x ∷ [] else xs) + 2 ≤ 13
  extended_le b xs x h = ground (arith, length-append xs (x ∷ []))

  -- The timeline of a result has at most thirteen events.
  length-timeline-analyze :
      (p : Pipeline F) (env : Surroundings) (req : InvestigationRequest F) (service : String)
      (signals : Signals F)
      → length (analyze p env req service signals).timeline ≤ 13
  unfolding analyze
  length-timeline-analyze p env req service signals =
      le_trans (length-append_topology_events _ _ _ _)
        (extended_le _ _ _ (length-build_timeline _ _ _))

  -- If the graph has an edge from or to the service, the timeline is in the order of time.
  append_topology_events-IsSorted :
      (now : Time) (timeline : List (TimelineEvent F)) (service : String)
      (edges : List (ServiceGraphEdge F))
      → related_edges edges service ≢ []
      → IsSorted earlier (append_topology_events now timeline service edges)
  unfolding append_topology_events
  append_topology_events-IsSorted now timeline service edges n =
      go (related_edges edges service) refl
    where
      go :
          (related : List (ServiceGraphEdge F))
          → related_edges edges service ≡ related
          → IsSorted earlier (append_topology_events now timeline service edges)
      go [] e = absurd (n e)
      go (g ∷ gs) e =
          rw (e, append_topology_events)
            (sort-IsSorted earlier (λ a b. ltb_ℤ_asym a.time b.time)
              (timeline ++ topology_events now timeline service (g ∷ gs)))

  -- The calls of `StoreCorrelation` that an answer calls for: one, for the tenant and with that
  -- very answer, if there is a client, and else none.
  abbrev StoredOnce :
      Option (WeaviateClient F)
      → String
      → CorrelationResult F
      → List (String × CorrelationResult F)
      → Type ℓ
  StoredOnce none tenant r stored = stored ≡ []
  StoredOnce (some w) tenant r stored = stored ≡ (tenant, r) ∷ []

  -- an answer about the incident, within the limits that an analysis keeps
  pub record IsAnswer (req : InvestigationRequest F) (r : CorrelationResult F) : Type 0 where
    pub about : r.incident_id ≡ req.incident_id
    pub scored : IsScore r.confidence
    pub anchored : length r.red_anchors ≤ 5
    pub timed : length r.timeline ≤ 13
    pub recommended : r.recommendations ≢ []

  -- What the answer and the stored correlations must be to each other.
  abbrev pub Answers :
      Pipeline F
      → Surroundings
      → InvestigationRequest F
      → Result (CorrelationResult F) × List (String × CorrelationResult F)
      → Type ℓ
  Answers p env req (err e, stored) =
      (fetch_signals p req (determine_service req) ≡ err e) × (stored ≡ [])
  Answers p env req (ok r, stored) =
      ((signals : Signals F) × (fetch_signals p req (determine_service req) ≡ ok signals)
        × (r ≡ analyze p env req (determine_service req) signals))
      × IsAnswer req r
      × StoredOnce p.weaviate req.tenant_id r stored

  persist_result-StoredOnce :
      (p : Pipeline F) (tenant : String) (r : CorrelationResult F)
      → StoredOnce p.weaviate tenant r (persist_result p tenant r)
  unfolding persist_result
  persist_result-StoredOnce p tenant r = elim (Option-cases p.weaviate) [
    | inl none_there ↦ rw none_there refl
    | inr (w, there) ↦ rw there refl
  ]

  analyze-IsAnswer :
      IsOrdered F
      → (p : Pipeline F) (env : Surroundings) (req : InvestigationRequest F) (service : String)
        (signals : Signals F)
      → IsAnswer req (analyze p env req service signals)
  unfolding analyze
  analyze-IsAnswer laws p env req service signals = record {
    about = refl;
    scored = calibrate_confidence-IsScore laws _ _;
    anchored = length-build_anchors _ _ _ service;
    timed = length-timeline-analyze p env req service signals;
    recommended = fetch_recommendations-ne-nil p req _ _;
  }

  -- If the floats compare as IEEE 754 says, an investigation fails only with the error of the fetch
  -- and then stores nothing; otherwise it answers with the analysis of the fetched signals, which is
  -- about the incident of the request, has a confidence that is NaN or between 0 and 1, at most 5
  -- anchors and 13 events, and a recommendation; and if there is a Weaviate client, it stores that
  -- very answer once for the tenant, and else nothing.
  pub investigate-Answers :
      IsOrdered F
      → (p : Pipeline F) (env : Surroundings) (req : InvestigationRequest F)
      → Answers p env req (investigate p env req)
  unfolding investigate
  investigate-Answers laws p env req = go (fetch_signals p req (determine_service req)) refl
    where
      go :
          (r : Result (Signals F))
          → fetch_signals p req (determine_service req) ≡ r
          → Answers p env req (investigate p env req)
      go (err e) h = rw (h, investigate) (h, refl)
      go (ok signals) h =
          rw (h, investigate)
            (
              (signals, h, refl),
              analyze-IsAnswer laws p env req (determine_service req) signals,
              persist_result-StoredOnce p req.tenant_id _,
            )

module _ {ℓ} {F : Type ℓ} (req : InvestigationRequest F) (service : String) where
  -- Each of the signals is what the client answered; a service graph that it failed to answer is
  -- empty.
  abbrev pub AreFetched : CoreClient F → Signals F → Type ℓ
  AreFetched c signals =
      (c.fetch_metric_series req.tenant_id service req.time_range.start req.time_range.end
        ≡ ok signals.metrics)
      × (c.fetch_log_entries req.tenant_id service req.time_range.start req.time_range.end
          ≡ ok signals.logs)
      × (c.fetch_trace_spans req.tenant_id service req.time_range.start req.time_range.end
          ≡ ok signals.traces)
      × (signals.service_graph
          ≡ graph_or_empty
              (c.fetch_service_graph req.tenant_id req.time_range.start req.time_range.end))
