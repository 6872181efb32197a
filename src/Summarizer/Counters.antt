-- ===== src/Summarizer/Counters.antt =====
-- Cumulative counters as differences.
use text.Mathlib.TextPositions.{eq_refl}
use nrt_aggragator.Prelude.{◌≡◌, refl, List, [], ◌∷◌, String, none, some, arith, if◌then◌else◌}
use nrt_aggragator.Prelude.Dict.{Dict, get, put, get-put}
use nrt_aggragator.Prelude.Float.{Float, nought}
use nrt_aggragator.Summarizer.{delta}

module _ {ℓ} {F : Type ℓ} ⦃f : Float F⦄ where
  -- the last value of a series
  abbrev pub last_of : Dict F → String → F
  last_of last key = elim (get last key) [ none ↦ nought | some prev ↦ prev ]

  -- the differences of the values of one series, one after the other
  abbrev pub deltas : Dict F → String → List F → List F
  deltas last key [] = []
  deltas last key (v ∷ vs) = (delta last key v).0 ∷ deltas (delta last key v).1 key vs

  -- the difference of each value to the one before it, 0 where the counter was reset
  abbrev pub steps : F → List F → List F
  steps prev [] = []
  steps prev (v ∷ vs) = (if f.lt (f.sub v prev) nought then nought else f.sub v prev) ∷ steps v vs

  -- The differences of a series are those between its neighbours, with 0 where it falls, from the
  -- last value that was seen before, and the values of other series have no part in it.
  pub deltas-steps :
      (last : Dict F) (key : String) (vs : List F)
      → deltas last key vs ≡ steps (last_of last key) vs
  unfolding delta
  deltas-steps last key [] = refl
  deltas-steps last key (v ∷ vs) =
      ground (arith, deltas-steps (put last key v) key vs, get-put last key key v, eq_refl key)
