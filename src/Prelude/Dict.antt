-- ===== src/Prelude/Dict.antt =====
-- Go's `map[string]V`: its entries, each key once, in the order of their first assignment.
use Prim.Native.String.{String}
use mathlib.Core.Path.{◌≡◌, refl}
use mathlib.Core.List.{List, [], ◌∷◌}
use mathlib.Core.Option.{Option, none, some}
use native.Mathlib.Omega.{arith}
use text.Mathlib.Text.{◌==◌ as str_eq}
use text.Mathlib.TextEquality.{eq_iff}
use nrt_aggragator.Prelude.Tests.{if◌then◌else◌}

abbrev pub Dict {ℓ} : Type ℓ → Type ℓ
Dict V = List (String × V)

module _ {ℓ} {V : Type ℓ} where
  -- `v, ok := m[key]`
  unfoldable pub get : Dict V → String → Option V
  get [] key = none
  get (e ∷ rest) key = if str_eq key e.0 then some e.1 else get rest key

  -- `m[key] = v`
  unfoldable pub put : Dict V → String → V → Dict V
  put [] key v = (key, v) ∷ []
  put (e ∷ rest) key v = if str_eq key e.0 then (e.0, v) ∷ rest else e ∷ put rest key v

  pub get-put :
      (m : Dict V) (key other : String) (v : V)
      → get (put m key v) other ≡ (if str_eq other key then some v else get m other)
  unfolding get put
  get-put [] key other v = refl
  get-put (e ∷ rest) key other v =
      ground (arith, get-put rest key other v, eq_iff other key, eq_iff other e.0, eq_iff key e.0)
