-- ===== src/Prelude/Floats.antt =====
-- Python's `float`, as far as the library calculates with it: a type and operations that the
-- definitions take as a parameter, and what the theorems use of them.
use mathlib.Core.Path.{◌≡◌}
use mathlib.Core.Bool.{Bool, true, false}
use mathlib.Core.Option.{Option}
use Prim.Native.Nat.{ℕ}
use Prim.Native.String.{String}
use netix_backend.Prelude.Int.{ℤ}
use netix_backend.Prelude.Tests.{if◌then◌else◌}

pub record Floats : Type 1 where
  pub F : Type 0
  -- the literal n / 10
  pub tenths : ℕ → F
  pub of_int : ℤ → F
  -- int(x)
  pub truncate : F → ℤ
  -- float(text); `none` is the ValueError
  pub parse_float : String → Option F
  pub less : F → F → Bool
  pub less_eq : F → F → Bool
  pub plus : F → F → F
  pub minus : F → F → F
  pub times : F → F → F
  pub half : F → F

-- What the comparisons of IEEE 754 give, not-a-number included.
pub record IsOrdered (f : Floats) : Type 0 where
  pub is_nan : f.F → Bool
  pub less_nan_left : (a b : f.F) → is_nan a ≡ true → f.less a b ≡ false
  pub less_nan_right : (a b : f.F) → is_nan b ≡ true → f.less a b ≡ false
  pub less_irrefl : (a : f.F) → f.less a a ≡ false
  pub less_eq_of_less : (a b : f.F) → f.less a b ≡ true → f.less_eq a b ≡ true
  pub less_eq_of_not_less :
      (a b : f.F) → is_nan a ≡ false → is_nan b ≡ false → f.less b a ≡ false → f.less_eq a b ≡ true

-- min(a, b) and max(a, b): the first argument stays unless the second is strictly beyond it.
abbrev pub fmin : (f : Floats) → f.F → f.F → f.F
fmin f a b = if f.less b a then b else a

abbrev pub fmax : (f : Floats) → f.F → f.F → f.F
fmax f a b = if f.less a b then b else a
