-- ===== src/Engine/Services.antt =====
-- The services that an investigation reports as affected.
use text.Mathlib.Text.{◌==◌}
use text.Mathlib.TextEquality.{eq_iff}
use nrt_aggragator.Prelude.{
  ◌≡◌, ◌∙◌, Bool, not, ◌||◌, ◌&&◌, List, [], ◌∷◌, ◌++◌, String, arith, Bool-cases, inl, inr, any,
  if◌then◌else◌,
}
use nrt_aggragator.Prelude.Text.{Strings, is_empty}
use nrt_aggragator.Models.{ServiceGraphEdge}
use nrt_aggragator.Recommend.{is_seen}
use nrt_aggragator.Recommend.Unique.{
  IsUnique, is_seen-append, is_seen-append_unique, append_unique-IsUnique,
}
use nrt_aggragator.Engine.Topology.{set_add, neighbor_set, neighbor_services}
use nrt_aggragator.Engine.{unique_strings, suggests, affected_of}

unique_strings-IsUnique : (values : List String) → IsUnique (unique_strings values)
unfolding unique_strings
unique_strings-IsUnique values = append_unique-IsUnique [] values tt

is_seen-unique_strings :
    (values : List String) (j : String)
    → is_seen (unique_strings values) j ≡ (not (is_empty j) && is_seen values j)
unfolding unique_strings
is_seen-unique_strings values j = unfold is_seen in is_seen-append_unique [] values j

is_seen-set_add :
    (keys : List String) (k j : String) → is_seen (set_add keys k) j ≡ (is_seen keys j || (k == j))
unfolding set_add
is_seen-set_add keys k j =
    unfold is_seen in ground (arith, is_seen-append keys (k ∷ []) j, eq_iff k j)

is_seen-set_add_if :
    (b : Bool) (keys : List String) (k j : String)
    → is_seen (if b then set_add keys k else keys) j ≡ (is_seen keys j || (b && (k == j)))
is_seen-set_add_if b keys k j = ground (arith, is_seen-set_add keys k j)

or_shuffle : (a b c d : Bool) → (((a || b) || c) || d) ≡ (a || ((b || c) || d))
or_shuffle a b c d = ground arith

module _ {ℓ} {F : Type ℓ} where
  -- the edge joins the two services, in either direction
  abbrev pub joins : String → String → ServiceGraphEdge F → Bool
  joins service j e =
      ((e.source == service) && (e.target == j)) || ((e.target == service) && (e.source == j))

  is_seen-neighbor_set :
      (keys : List String) (edges : List (ServiceGraphEdge F)) (service j : String)
      → is_seen (neighbor_set keys edges service) j
        ≡ (is_seen keys j || any (joins service j) edges)
  unfolding neighbor_set
  is_seen-neighbor_set keys [] service j = ground arith
  is_seen-neighbor_set keys (e ∷ es) service j =
      let once = if e.source == service then set_add keys e.target else keys in
      is_seen-neighbor_set (if e.target == service then set_add once e.source else once) es service
        j
      ∙ (rw
          (
            is_seen-set_add_if (e.target == service) once e.source j,
            is_seen-set_add_if (e.source == service) keys e.target j,
          )
          (or_shuffle (is_seen keys j) _ _ (any (joins service j) es)))

module _ {ℓ} {F : Type ℓ} ⦃s : Strings⦄ (range : List String → List String)
    (each_key : (keys : List String) (j : String) → is_seen (range keys) j ≡ is_seen keys j) where
  is_seen-neighbor_services :
      (graph : List (ServiceGraphEdge F)) (service j : String)
      → is_seen (neighbor_services range graph service) j ≡ any (joins service j) graph
  unfolding neighbor_services is_seen
  is_seen-neighbor_services graph service j =
      each_key (neighbor_set [] graph service) j ∙ is_seen-neighbor_set [] graph service j

  is_seen-base :
      (requested : List String) (graph : List (ServiceGraphEdge F)) (service j : String)
      → is_seen
          (unique_strings
            (unique_strings (service ∷ requested) ++ neighbor_services range graph service))
          j
        ≡ (not (is_empty j)
            && (((service == j) || is_seen requested j) || any (joins service j) graph))
  unfolding is_seen
  is_seen-base requested graph service j =
      let own = unique_strings (service ∷ requested) in
      ground (
        arith,
        is_seen-unique_strings (own ++ neighbor_services range graph service) j,
        is_seen-append own (neighbor_services range graph service) j,
        is_seen-unique_strings (service ∷ requested) j,
        is_seen-neighbor_services graph service j,
      )

  -- If `range` visits the keys of a map, in any order, then the affected services are, each once:
  -- the service, the requested ones, its neighbours in the graph in both directions, and the
  -- suggested one where it counts; without empty names.
  pub affected_of_exact :
      (requested : List String) (graph : List (ServiceGraphEdge F)) (service suggested j : String)
      → let affected = affected_of range requested graph service suggested in
        IsUnique affected
        × (is_seen affected j ≡ (
            not (is_empty j)
            && (((service == j) || is_seen requested j)
                || any (joins service j) graph
                || (suggests suggested service && (suggested == j)))))
  unfolding affected_of
  affected_of_exact requested graph service suggested j =
      let base =
        unique_strings
          (unique_strings (service ∷ requested) ++ neighbor_services range graph service) in
      elim (Bool-cases (suggests suggested service)) [
        | inl used ↦ rw used (
          unique_strings-IsUnique (base ++ suggested ∷ []),
          unfold is_seen in
              ground (
                arith,
                is_seen-unique_strings (base ++ suggested ∷ []) j,
                is_seen-append base (suggested ∷ []) j,
                is_seen-base requested graph service j,
              ),
        )
        | inr unused ↦
            rw unused
              (unique_strings-IsUnique _, ground (arith, is_seen-base requested graph service j))
      ]
