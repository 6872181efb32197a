-- ===== src/Patterns/Mined.antt =====
-- What a mined pattern counts: the miner's two counters of a service are both the number of times
-- that the history names it.
use text.Mathlib.Text.{◌==◌ as str_eq}
use text.Mathlib.TextEquality.{eq_iff}
use nrt_aggragator.Prelude.{
  ℕ, ◌+◌, ◌≤◌, ◌<◌, ◌≡◌, refl, Bool, List, [], ◌∷◌, String, arith, if◌then◌else◌, true, false, ◌==◌,
  length, ltb, take, length-take, length-map, All, Bool-cases, inl, inr, Option, none, some,
}
use nrt_aggragator.Prelude.Dict.{Dict, get, get-put}
use nrt_aggragator.Prelude.Sort.{sort-All, IsSorted, sort-IsSorted}
use nrt_aggragator.Prelude.Float.{Float, of_ℕ, IsOrdered}
use nrt_aggragator.Models.{Time, RedAnchor, CorrelationResult, FailurePattern}
use nrt_aggragator.Patterns.{
  ServiceAggregate, service_key, get_or_zero, new_aggregate, ensure_aggregate, change,
  count_service, count_correlation, count_anchor, count_services, count_correlations, count_anchors,
  aggregate, aggregate_all, top_selectors, pattern_of, patterns_of, mine, add_pattern, template_of,
  more_prevalent,
}

-- how often the service is named, an empty name standing for "unknown"
abbrev occurrences : String → List String → ℕ
occurrences service [] = 0
occurrences service (x ∷ xs) =
    (if str_eq service (service_key x) then 1 else 0) + occurrences service xs

length-cut : (n : ℕ) (xs : List String) → length (if ltb n (length xs) then take n xs else xs) ≤ n
length-cut n xs = ground (arith, length-take n xs)

get-nil {ℓ} : {V : Type ℓ} (service : String) → get {V = V} [] service ≡ none
unfolding get
get-nil service = refl

module _ {ℓ} {F : Type ℓ} where
  abbrev occurrences_all : String → List (CorrelationResult F) → ℕ
  occurrences_all service [] = 0
  occurrences_all service (c ∷ cs) =
      occurrences service c.affected_services + occurrences_all service cs

  abbrev at : (ServiceAggregate F → ℕ) → Dict (ServiceAggregate F) → String → ℕ
  at field m service = field (get_or_zero new_aggregate m service)

  at-change :
      (field : ServiceAggregate F → ℕ) (g : ServiceAggregate F → ServiceAggregate F) (d : ℕ)
      → ((agg : ServiceAggregate F) → field (g agg) ≡ field agg + d)
      → (m : Dict (ServiceAggregate F)) (x service : String)
      → at field (change m x g) service
        ≡ at field m service + (if str_eq service (service_key x) then d else 0)
  unfolding change ensure_aggregate
  at-change field g d grows m x service = ground (
    arith,
    get-put m (service_key x) service (g (ensure_aggregate m x)),
    eq_iff service (service_key x),
    grows (ensure_aggregate m x),
  )

  at-count_services :
      (field : ServiceAggregate F → ℕ) (w : Bool) (t : Time)
      → ((agg : ServiceAggregate F)
          → field (count_service t agg) ≡ field agg + (if w then 1 else 0))
      → (m : Dict (ServiceAggregate F)) (xs : List String) (service : String)
      → at field (count_services t m xs) service
        ≡ at field m service + (if w then occurrences service xs else 0)
  unfolding count_services
  at-count_services field w t grows m [] service = ground arith
  at-count_services field w t grows m (x ∷ xs) service = ground (
    arith,
    at-change field (count_service t) (if w then 1 else 0) grows m x service,
    at-count_services field w t grows (change m x (count_service t)) xs service,
  )

  at-count_correlations :
      (field : ServiceAggregate F → ℕ) (w : Bool)
      → ((agg : ServiceAggregate F)
          → field (count_correlation agg) ≡ field agg + (if w then 1 else 0))
      → (m : Dict (ServiceAggregate F)) (xs : List String) (service : String)
      → at field (count_correlations m xs) service
        ≡ at field m service + (if w then occurrences service xs else 0)
  unfolding count_correlations
  at-count_correlations field w grows m [] service = ground arith
  at-count_correlations field w grows m (x ∷ xs) service = ground (
    arith,
    at-change field count_correlation (if w then 1 else 0) grows m x service,
    at-count_correlations field w grows (change m x count_correlation) xs service,
  )

module _ {ℓ} {F : Type ℓ} ⦃f : Float F⦄ where
  at-count_anchors :
      (field : ServiceAggregate F → ℕ) (t : Time)
      → ((a : RedAnchor F) (agg : ServiceAggregate F) → field (count_anchor t a agg) ≡ field agg)
      → (m : Dict (ServiceAggregate F)) (xs : List (RedAnchor F)) (service : String)
      → at field (count_anchors t m xs) service ≡ at field m service
  unfolding count_anchors
  at-count_anchors field t keeps m [] service = refl
  at-count_anchors field t keeps m (a ∷ rest) service = ground (
    arith,
    at-change field (count_anchor t a) 0 (λ agg. omega (arith, keeps a agg)) m a.service service,
    at-count_anchors field t keeps (change m a.service (count_anchor t a)) rest service,
  )

  count-aggregate :
      (m : Dict (ServiceAggregate F)) (c : CorrelationResult F) (service : String)
      → at (λ a. a.count) (aggregate m c) service
        ≡ at (λ a. a.count) m service + occurrences service c.affected_services
  unfolding aggregate
  count-aggregate m c service =
      let m' = count_services c.created_at m c.affected_services in
      let m'' = count_anchors c.created_at m' c.red_anchors in
      omega (
        arith,
        at-count_services (λ a. a.count) true c.created_at (λ agg. refl) m c.affected_services
            service,
        at-count_anchors (λ a. a.count) c.created_at (λ a agg. ground arith) m' c.red_anchors
            service,
        at-count_correlations (λ a. a.count) false (λ agg. omega arith) m'' c.affected_services
            service,
      )

  total-aggregate :
      (m : Dict (ServiceAggregate F)) (c : CorrelationResult F) (service : String)
      → at (λ a. a.total_correlations) (aggregate m c) service
        ≡ at (λ a. a.total_correlations) m service + occurrences service c.affected_services
  unfolding aggregate
  total-aggregate m c service =
      let m' = count_services c.created_at m c.affected_services in
      let m'' = count_anchors c.created_at m' c.red_anchors in
      omega (
        arith,
        at-count_services (λ a. a.total_correlations) false c.created_at (λ agg. omega arith) m
            c.affected_services service,
        at-count_anchors (λ a. a.total_correlations) c.created_at (λ a agg. ground arith) m'
            c.red_anchors service,
        at-count_correlations (λ a. a.total_correlations) true (λ agg. refl) m'' c.affected_services
            service,
      )

  count-aggregate_all :
      (m : Dict (ServiceAggregate F)) (cs : List (CorrelationResult F)) (service : String)
      → at (λ a. a.count) (aggregate_all m cs) service
        ≡ at (λ a. a.count) m service + occurrences_all service cs
  unfolding aggregate_all
  count-aggregate_all m [] service = omega arith
  count-aggregate_all m (c ∷ cs) service =
      omega (arith, count-aggregate m c service, count-aggregate_all (aggregate m c) cs service)

  total-aggregate_all :
      (m : Dict (ServiceAggregate F)) (cs : List (CorrelationResult F)) (service : String)
      → at (λ a. a.total_correlations) (aggregate_all m cs) service
        ≡ at (λ a. a.total_correlations) m service + occurrences_all service cs
  unfolding aggregate_all
  total-aggregate_all m [] service = omega arith
  total-aggregate_all m (c ∷ cs) service =
      omega (arith, total-aggregate m c service, total-aggregate_all (aggregate m c) cs service)

  -- A pattern is about one service that the history names; its prevalence is how often it does, by
  -- the number of correlations; it has three templates at most.
  pub record IsMined (cs : List (CorrelationResult F)) (p : FailurePattern F) : Type ℓ where
    pub service : String
    pub about : p.services ≡ service ∷ []
    pub named : 0 < occurrences_all service cs
    pub frequency : p.prevalence ≡ f.div (of_ℕ (occurrences_all service cs)) (of_ℕ (length cs))
    pub few : length p.anchor_templates ≤ 3

  length-top_selectors :
      (range : List String → List String) (agg : ServiceAggregate F) (limit : ℕ)
      → length (top_selectors range agg limit) ≤ limit
  unfolding top_selectors
  length-top_selectors range agg limit = length-cut limit _

  pattern_of-IsMined :
      (range : List String → List String) (cs : List (CorrelationResult F)) (service : String)
      → (agg : ServiceAggregate F) → agg.count ≡ occurrences_all service cs
      → 0 < occurrences_all service cs
      → IsMined cs (pattern_of range (length cs) service agg)
  unfolding pattern_of
  pattern_of-IsMined range cs service agg counted named = record {
    service = service;
    about = refl;
    named = named;
    frequency = rw counted refl;
    few = omega (
      arith,
      length-map (top_selectors range agg 3) (template_of service agg),
      length-top_selectors range agg 3,
    );
  }

  add_pattern-IsMined :
      (range : List String → List String) (cs : List (CorrelationResult F)) (service : String)
      → (found : Option (ServiceAggregate F)) (rest : List (FailurePattern F))
      → get (aggregate_all [] cs) service ≡ found
      → All (IsMined cs) rest
      → All (IsMined cs) (add_pattern range (length cs) service found rest)
  unfolding add_pattern
  add_pattern-IsMined range cs service none rest found mined = mined
  add_pattern-IsMined range cs service (some agg) rest found mined =
      elim (Bool-cases (agg.total_correlations == 0)) [
        | inl never ↦ rw never mined
        | inr once ↦ rw once (
          pattern_of-IsMined range cs service agg
              (ground (
                arith,
                found,
                get-nil {V = ServiceAggregate F} service,
                count-aggregate_all [] cs service,
              ))
              (ground (
                arith,
                found,
                get-nil {V = ServiceAggregate F} service,
                total-aggregate_all [] cs service,
              )),
          mined,
        )
      ]

  patterns_of-IsMined :
      (range : List String → List String) (cs : List (CorrelationResult F)) (keys : List String)
      → All (IsMined cs) (patterns_of range (length cs) (aggregate_all [] cs) keys)
  unfolding patterns_of
  patterns_of-IsMined range cs [] = tt
  patterns_of-IsMined range cs (service ∷ keys) =
      add_pattern-IsMined range cs service (get (aggregate_all [] cs) service) _ refl
        (patterns_of-IsMined range cs keys)

  -- Whatever order the maps are visited in, every mined pattern is about one service that the
  -- history names, its prevalence is the number of times it does by the number of correlations,
  -- and it has at most three anchor templates.
  pub mine-IsMined :
      (range : List String → List String) (has_store : Bool) (cs : List (CorrelationResult F))
      → All (IsMined cs) (mine range has_store cs).0
  unfolding mine
  mine-IsMined range has_store [] = tt
  mine-IsMined range has_store (c ∷ cs) =
      sort-All (IsMined (c ∷ cs)) more_prevalent _ (patterns_of-IsMined range (c ∷ cs) _)

  -- No mined pattern stands before a more prevalent neighbour, if the floats compare as IEEE 754
  -- says.
  mine-IsSorted :
      (laws : IsOrdered F) (range : List String → List String) (has_store : Bool)
      → (cs : List (CorrelationResult F)) → IsSorted more_prevalent (mine range has_store cs).0
  unfolding mine
  mine-IsSorted laws range has_store [] = tt
  mine-IsSorted laws range has_store (c ∷ cs) =
      sort-IsSorted more_prevalent
        (λ p q. unfold more_prevalent in laws.lt_asym q.prevalence p.prevalence) _
