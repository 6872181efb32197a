-- ===== src/Prelude/Text.antt =====
-- What the program uses of Go's package strings. A text is its sequence of characters (valid UTF-8).
use Prim.Native.Char.{Char}
use Prim.Native.String.{String}
use mathlib.Core.Path.{◌≡◌}
use mathlib.Core.Bool.{Bool, true, ◌||◌}
use mathlib.Core.List.{List, [], ◌∷◌}
use text.Mathlib.Text.{starts_with}
use text.Mathlib.Text.{◌==◌ as str_eq}
use text.Mathlib.TextPositions.{eq_refl}
use nrt_aggragator.Prelude.Int.{ℤ}
use nrt_aggragator.Prelude.Tests.{if◌then◌else◌}

-- What is not computed here: Unicode's tables `unicode.ToLower` and the least rune of the orbit of
-- `unicode.SimpleFold`, the decimal digits of an integer (`strconv.FormatInt`),
-- and the text without the white space around it (`strings.TrimSpace`).
pub record Strings : Type 0 where
  pub lower : Char → Char
  pub fold : Char → Char
  pub itoa : ℤ → String
  pub trim : String → String

unfoldable pub map_chars : (Char → Char) → String → String
map_chars f String.[] = String.[]
map_chars f (String.◌∷◌ c s) = String.◌∷◌ (f c) (map_chars f s)

module _ ⦃r : Strings⦄ where
  -- strings.ToLower
  unfoldable pub to_lower : String → String
  unfolding map_chars
  to_lower s = map_chars r.lower s

  -- strings.EqualFold
  unfoldable pub equal_fold : String → String → Bool
  unfolding map_chars
  equal_fold s t = str_eq (map_chars r.fold s) (map_chars r.fold t)

  pub equal_fold_refl : (s : String) → equal_fold s s ≡ true
  unfolding equal_fold
  equal_fold_refl s = eq_refl (map_chars r.fold s)

-- strings.Contains
unfoldable pub contains : String → String → Bool
contains String.[] t = starts_with String.[] t
contains (String.◌∷◌ c s) t = starts_with (String.◌∷◌ c s) t || contains s t

-- strings.HasSuffix
unfoldable pub has_suffix : String → String → Bool
has_suffix String.[] t = str_eq String.[] t
has_suffix (String.◌∷◌ c s) t = str_eq (String.◌∷◌ c s) t || has_suffix s t

-- strings.HasPrefix
abbrev pub has_prefix : String → String → Bool
has_prefix s t = starts_with s t

abbrev pub is_empty : String → Bool
is_empty s = str_eq s ""

-- the first text that is not empty, or the empty one
unfoldable pub first_non_empty : List String → String
first_non_empty [] = ""
first_non_empty (s ∷ ss) = if is_empty s then first_non_empty ss else s
