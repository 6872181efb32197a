-- ===== src/Tests/Fixed.antt =====
-- A type of floats that meets the laws: millionths, with `none` for NaN. The square root, the
-- exponential, the logarithm and the printed form are placeholders that no law reads.
use nrt_aggragator.Prelude.{
  ℕ, zero, String, ◌+◌, ◌*◌, ◌/◌, ◌^◌, Bool, false, Option, none, some, arith, if◌then◌else◌, ◌==◌,
}
use nrt_aggragator.Prelude.Int.{ℤ, pos, pos_part, neg_part, sub_ℕ, ◌+ℤ◌, ◌-ℤ◌, ltb_ℤ, leb_ℤ}
use nrt_aggragator.Prelude.Text.{Strings}
use nrt_aggragator.Prelude.Float.{Float, IsOrdered}

abbrev pub Fixed : Type 0
Fixed = Option ℤ

abbrev micro : ℕ
micro = 1_000_000

abbrev on_numbers : (ℤ → ℤ → Bool) → Fixed → Fixed → Bool
on_numbers g (some a) (some b) = g a b
on_numbers g _ _ = false

abbrev lift : (ℤ → ℤ → Fixed) → Fixed → Fixed → Fixed
lift g (some a) (some b) = g a b
lift g _ _ = none

abbrev lift_one : (ℤ → ℤ) → Fixed → Fixed
lift_one g (some a) = some (g a)
lift_one g none = none

abbrev mul_parts : ℤ → ℤ → Fixed
mul_parts a b = some (
    sub_ℕ ((pos_part a * pos_part b + neg_part a * neg_part b) / micro)
      ((pos_part a * neg_part b + neg_part a * pos_part b) / micro))

abbrev div_parts : ℤ → ℤ → Fixed
div_parts a b =
    if pos_part b + neg_part b == 0
    then none
    else some (
        sub_ℕ
          ((if ltb_ℤ b (pos 0) then neg_part a else pos_part a) * micro / (pos_part b + neg_part b))
          ((if ltb_ℤ b (pos 0) then pos_part a else neg_part a)
            * micro
            / (pos_part b + neg_part b)))

abbrev to_int : Fixed → ℤ
to_int none = pos 0
to_int (some a) = sub_ℕ (pos_part a / micro) (neg_part a / micro)

abbrev rounded : ℤ → ℤ
rounded a = sub_ℕ ((pos_part a + 500_000) / micro * micro) ((neg_part a + 500_000) / micro * micro)

instance abbrev pub fixed_float : Float Fixed
fixed_float = record {
  decimal = λ n k. some (pos (n * micro / 10 ^ k));
  add = lift (λ a b. some (a +ℤ b));
  sub = lift (λ a b. some (a -ℤ b));
  mul = lift mul_parts;
  div = lift div_parts;
  sqrt = λ a. a;
  pow = λ a b. lift mul_parts a a;
  exp = λ a. a;
  log = λ a. a;
  abs = lift_one (λ a. pos (pos_part a + neg_part a));
  round = lift_one rounded;
  eq = on_numbers (λ a b. pos_part a + neg_part b == pos_part b + neg_part a);
  lt = on_numbers ltb_ℤ;
  le = on_numbers leb_ℤ;
  of_int = λ a. some (sub_ℕ (pos_part a * micro) (neg_part a * micro));
  to_int = to_int;
  format = λ n a. "";
}

pub Fixed-IsOrdered : IsOrdered Fixed
Fixed-IsOrdered = ground arith

abbrev print : ℤ → String
print (pos zero) = "0"
print _ = "1"

-- Texts in which all letters are lower-case, with no white space around them. Only 0 and 1 are
-- printed as they are.
instance abbrev pub plain_strings : Strings
plain_strings = record { lower = λ c. c; fold = λ c. c; itoa = print; trim = λ s. s }
