-- ===== src/Causality/Upstream.antt =====
-- Which edge the evaluation suggests, and how it counts.
use mathlib.Core.List.{Mem, mem-cons_self, mem-cons_of_mem}
use nrt_aggragator.Prelude.{
  ◌≤◌, ◌≡◌, ◌≢◌, refl, sym, ap, ◌∙◌, true, List, [], ◌∷◌, String, arith, Bool-cases, inl, inr,
  length, length-append, ◌⊎◌,
}
use nrt_aggragator.Prelude.Text.{Strings, is_empty, equal_fold}
use nrt_aggragator.Prelude.Float.{Float}
use nrt_aggragator.Models.{Time, TimelineEvent, ServiceGraphEdge}
use nrt_aggragator.Causality.{
  Tally, empty_edge, empty_tally, weigh_edge, weigh_edges, root_time_of, conclude, evaluate,
  suggested_edge_set,
}

module _ {ℓ} {F : Type ℓ} ⦃f : Float F⦄ ⦃s : Strings⦄ where
  -- The counters never part: each supporting edge is an upstream edge, and each upstream edge that
  -- is timed or supporting leaves one note.
  record IsTallied (t : Tally F) : Type 0 where
    pub supported : t.supporting ≤ length t.notes
    pub noted : length t.notes ≤ t.total_upstream

  weigh_edge-IsTallied :
      (root : String) (now : Time) (timeline : List (TimelineEvent F)) (g : ServiceGraphEdge F)
      (t : Tally F)
      → IsTallied t
      → IsTallied (weigh_edge root now timeline g t)
  unfolding weigh_edge
  weigh_edge-IsTallied root now timeline g t h = grind (arith, length-append)

  weigh_edges-IsTallied :
      (root : String) (now : Time) (timeline : List (TimelineEvent F))
      (gs : List (ServiceGraphEdge F)) (t : Tally F)
      → IsTallied t
      → IsTallied (weigh_edges root now timeline gs t)
  unfolding weigh_edges
  weigh_edges-IsTallied root now timeline [] t h = h
  weigh_edges-IsTallied root now timeline (g ∷ gs) t h =
      weigh_edges-IsTallied root now timeline gs _ (weigh_edge-IsTallied root now timeline g t h)

  -- A round keeps the suggestion, or takes its own edge, which then leads to the root.
  weigh_edge-suggested :
      (root : String) (now : Time) (timeline : List (TimelineEvent F)) (g : ServiceGraphEdge F)
      (t : Tally F)
      → ((weigh_edge root now timeline g t).suggested ≡ t.suggested)
        ⊎ (((weigh_edge root now timeline g t).suggested ≡ g) × (equal_fold g.target root ≡ true))
  unfolding weigh_edge
  weigh_edge-suggested root now timeline g t = ground arith

  -- The suggestion is an upstream edge of the list `gs`, or still the empty edge.
  abbrev IsSuggestion : String → List (ServiceGraphEdge F) → ServiceGraphEdge F → Type ℓ
  IsSuggestion root gs e = (e ≡ empty_edge) ⊎ (Mem e gs × (equal_fold e.target root ≡ true))

  weigh_edges-IsSuggestion :
      (root : String) (now : Time) (timeline : List (TimelineEvent F))
      (all gs : List (ServiceGraphEdge F)) (t : Tally F)
      → ((e : ServiceGraphEdge F) → Mem e gs → Mem e all)
      → IsSuggestion root all t.suggested
      → IsSuggestion root all (weigh_edges root now timeline gs t).suggested
  unfolding weigh_edges
  weigh_edges-IsSuggestion root now timeline all [] t within h = h
  weigh_edges-IsSuggestion root now timeline all (g ∷ gs) t within h =
      weigh_edges-IsSuggestion root now timeline all gs (weigh_edge root now timeline g t)
        (λ e m. within e (mem-cons_of_mem g m)) next
    where
      next : IsSuggestion root all (weigh_edge root now timeline g t).suggested
      next = elim (weigh_edge-suggested root now timeline g t) [
        | inl same ↦ rw same h
        | inr own ↦ rw own.0 (inr (within g mem-cons_self, own.1))
      ]

  -- An upstream edge of the graph whose source is the suggested service.
  abbrev pub Upstream : String → List (ServiceGraphEdge F) → String → Type ℓ
  Upstream root gs service =
      (e : ServiceGraphEdge F) × Mem e gs × (equal_fold e.target root ≡ true) × (e.source ≡ service)

  conclude-source :
      (t : Tally F)
      → (conclude t).suggested_service ≢ ""
      → (conclude t).suggested_service ≡ t.suggested.source
  unfolding conclude suggested_edge_set
  conclude-source t n = ground arith

  conclude-suggested :
      (root : String) (gs : List (ServiceGraphEdge F)) (t : Tally F)
      → IsSuggestion root gs t.suggested
      → (conclude t).suggested_service ≢ ""
      → Upstream root gs (conclude t).suggested_service
  conclude-suggested root gs t (inl e) n =
      absurd (n (conclude-source t n ∙ ap (λ (g : ServiceGraphEdge F). g.source) e))
  conclude-suggested root gs t (inr m) n = (t.suggested, m.0, m.1, sym (conclude-source t n))

  -- A suggested service is the source of an edge of the graph that leads to the root service.
  pub evaluate-Upstream :
      (root : String) (timeline : List (TimelineEvent F)) (edges : List (ServiceGraphEdge F))
      → (evaluate root timeline edges).suggested_service ≢ ""
      → Upstream root edges (evaluate root timeline edges).suggested_service
  unfolding evaluate
  evaluate-Upstream root [] edges n = absurd (n refl)
  evaluate-Upstream root (e ∷ es) [] n = absurd (n refl)
  evaluate-Upstream root (e ∷ es) (g ∷ gs) n = elim (Bool-cases (is_empty root)) [
    | inl no_root ↦ absurd (n (rw no_root))
    | inr rooted ↦ rw rooted (
        conclude-suggested root (g ∷ gs) _
          (weigh_edges-IsSuggestion root (root_time_of root e es) (e ∷ es) (g ∷ gs) (g ∷ gs)
            empty_tally (λ e m. m) (inl refl))
          (rw rooted at n))
  ]
