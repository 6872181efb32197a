-- ===== src/Prelude/TextOrder.antt =====
-- Go's `<` on texts, by code points, which is the order of the bytes of valid UTF-8.
use Prim.Native.Char.{code}
use Prim.Native.String.{String}
use mathlib.Core.Path.{◌≡◌, refl}
use mathlib.Core.Bool.{Bool, true, false}
use native.Mathlib.Omega.{arith}
use text.Mathlib.TextEquality.{Char-path}
use nrt_aggragator.Prelude.Tests.{ltb, if◌then◌else◌}

unfoldable pub text_lt : String → String → Bool
text_lt String.[] String.[] = false
text_lt String.[] (String.◌∷◌ d t) = true
text_lt (String.◌∷◌ c s) String.[] = false
text_lt (String.◌∷◌ c s) (String.◌∷◌ d t) =
    let rest = text_lt s t in
    if ltb (code c) (code d) then true else if ltb (code d) (code c) then false else rest

text_lt_asym : (x y : String) → text_lt x y ≡ true → text_lt y x ≡ false
unfolding text_lt
text_lt_asym String.[] String.[] h = refl
text_lt_asym String.[] (String.◌∷◌ d t) h = refl
text_lt_asym (String.◌∷◌ c s) String.[] h = cc
text_lt_asym (String.◌∷◌ c s) (String.◌∷◌ d t) h = ground (arith, text_lt_asym s t)

text_lt_trans : (x y z : String) → text_lt x y ≡ true → text_lt y z ≡ true → text_lt x z ≡ true
unfolding text_lt
text_lt_trans String.[] String.[] z h k = cc
text_lt_trans String.[] (String.◌∷◌ d t) String.[] h k = cc
text_lt_trans String.[] (String.◌∷◌ d t) (String.◌∷◌ e u) h k = refl
text_lt_trans (String.◌∷◌ c s) String.[] z h k = cc
text_lt_trans (String.◌∷◌ c s) (String.◌∷◌ d t) String.[] h k = cc
text_lt_trans (String.◌∷◌ c s) (String.◌∷◌ d t) (String.◌∷◌ e u) h k =
    ground (arith, text_lt_trans s t u)

text_lt_connected : (x y : String) → text_lt x y ≡ false → text_lt y x ≡ false → x ≡ y
unfolding text_lt
text_lt_connected String.[] String.[] h k = refl
text_lt_connected String.[] (String.◌∷◌ d t) h k = cc
text_lt_connected (String.◌∷◌ c s) String.[] h k = cc
text_lt_connected (String.◌∷◌ c s) (String.◌∷◌ d t) h k =
    let same : code c ≡ code d = ground arith in
    let tails = text_lt_connected s t (ground arith) (ground arith) in
    λ i. String.◌∷◌ (Char-path c d same i) (tails i)

-- a strict linear order
pub record IsLinear {ℓ} (A : Type ℓ) (less : A → A → Bool) : Type ℓ where
  pub asym : (x y : A) → less x y ≡ true → less y x ≡ false
  pub trans : (x y z : A) → less x y ≡ true → less y z ≡ true → less x z ≡ true
  pub connected : (x y : A) → less x y ≡ false → less y x ≡ false → x ≡ y

pub text_lt-IsLinear : IsLinear String text_lt
text_lt-IsLinear = record {
  asym = text_lt_asym;
  trans = text_lt_trans;
  connected = text_lt_connected;
}
