-- ===== src/Prelude/Result.antt =====
-- Go's pair of a value and an error. An error is its text.
use Prim.Native.String.{String}
use Prim.Native.String.{◌++◌ as join}

-- a value, or the text of an error
pub data Result {ℓ} (A : Type ℓ) : Type ℓ where
  ok : A → Result A
  err : String → Result A

infixl 5 ◌>>=◌
abbrev pub ◌>>=◌ {ℓ κ} : {A : Type ℓ} {B : Type κ} → Result A → (A → Result B) → Result B
ok a >>= g = g a
err e >>= g = err e

-- `fmt.Errorf("…: %w", err)`
abbrev pub wrap {ℓ} : {A : Type ℓ} → String → Result A → Result A
wrap prefix (ok a) = ok a
wrap prefix (err e) = err (join prefix e)
