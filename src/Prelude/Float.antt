-- ===== src/Prelude/Float.antt =====
-- What the program does with a `float64`. Go's arithmetic is not part of the repository: a type of
-- floats with these operations is a parameter of the models.
use Prim.Native.Nat.{ℕ}
use Prim.Native.String.{String}
use mathlib.Core.Path.{◌≡◌}
use mathlib.Core.Bool.{Bool, true, false}
use nrt_aggragator.Prelude.Int.{ℤ, pos}

pub record Float {ℓ} (F : Type ℓ) : Type ℓ where
  -- the constant n * 10^-k
  pub decimal : ℕ → ℕ → F
  pub add : F → F → F
  pub sub : F → F → F
  pub mul : F → F → F
  pub div : F → F → F
  pub sqrt : F → F
  pub pow : F → F → F
  pub exp : F → F
  pub log : F → F
  pub abs : F → F
  pub round : F → F
  pub eq : F → F → Bool
  pub lt : F → F → Bool
  pub le : F → F → Bool
  -- `float64(n)`, and `int(f)`
  pub of_int : ℤ → F
  pub to_int : F → ℤ
  -- `strconv.FormatFloat(f, 'f', n, 64)`
  pub format : ℕ → F → String

module _ {ℓ} {F : Type ℓ} ⦃f : Float F⦄ where
  abbrev pub nought : F
  nought = f.decimal 0 0

  abbrev pub unit : F
  unit = f.decimal 1 0

  -- `a >= b` and `a > b`
  abbrev pub ge : F → F → Bool
  ge a b = f.le b a

  abbrev pub gt : F → F → Bool
  gt a b = f.lt b a

  abbrev pub of_ℕ : ℕ → F
  of_ℕ n = f.of_int (pos n)

-- How IEEE 754 comparisons behave, NaN included: `le x x` says that x is a number.
pub record IsOrdered {ℓ} (F : Type ℓ) ⦃f : Float F⦄ : Type ℓ where
  pub lt_asym : (x y : F) → f.lt x y ≡ true → f.lt y x ≡ false
  pub lt_trans : (x y z : F) → f.lt x y ≡ true → f.lt y z ≡ true → f.lt x z ≡ true
  pub le_of_lt : (x y : F) → f.lt x y ≡ true → f.le x y ≡ true
  pub le_trans : (x y z : F) → f.le x y ≡ true → f.le y z ≡ true → f.le x z ≡ true
  pub le_refl_left : (x y : F) → f.le x y ≡ true → f.le x x ≡ true
  pub le_refl_right : (x y : F) → f.le x y ≡ true → f.le y y ≡ true
  pub le_of_not_lt :
      (x y : F) → f.le x x ≡ true → f.le y y ≡ true → f.lt x y ≡ false → f.le y x ≡ true
  pub not_lt_of_le : (x y : F) → f.le x y ≡ true → f.lt y x ≡ false
  pub zero_le_unit : f.le (f.decimal 0 0) (f.decimal 1 0) ≡ true
