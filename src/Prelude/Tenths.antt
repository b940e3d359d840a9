-- ===== src/Prelude/Tenths.antt =====
-- A float for the tests: tenths of a unit, and a not-a-number.
use netix_backend.Prelude.Tests.{ltb, leb, if◌then◌else◌}
use Prim.Native.Nat.{ℕ, ◌+◌, ◌-◌, ◌*◌, ◌/◌}
use Prim.Native.String.{String}
use mathlib.Core.Path.{◌≡◌, refl}
use mathlib.Core.Bool.{Bool, true, false}
use mathlib.Core.Option.{Option, none, some}
use native.Mathlib.Omega.{arith}
use text.Mathlib.Text.{◌==◌ as str_eq}
use netix_backend.Prelude.Int.{ℤ, pos, pos_part}
use netix_backend.Prelude.Floats.{Floats, IsOrdered}

pub data Tenths : Type 0 where
  tenth : ℕ → Tenths
  nan : Tenths

abbrev pub lift : (ℕ → ℕ → ℕ) → Tenths → Tenths → Tenths
lift op (tenth a) (tenth b) = tenth (op a b)
lift op _ _ = nan

abbrev pub compare_by : (ℕ → ℕ → Bool) → Tenths → Tenths → Bool
compare_by test (tenth a) (tenth b) = test a b
compare_by test _ _ = false

abbrev pub floor : Tenths → ℤ
floor (tenth a) = pos (a / 10)
floor nan = pos 0

abbrev pub halve : Tenths → Tenths
halve (tenth a) = tenth (a / 2)
halve nan = nan

abbrev pub read : String → Option Tenths
read s = if str_eq s "7" then some (tenth 70) else if str_eq s "nan" then some nan else none

abbrev pub tenths_floats : Floats
tenths_floats = record {
  F = Tenths;
  tenths = tenth;
  of_int = λ z. tenth (pos_part z * 10);
  truncate = floor;
  parse_float = read;
  less = compare_by ltb;
  less_eq = compare_by leb;
  plus = lift (λ a b. a + b);
  minus = lift (λ a b. a - b);
  times = lift (λ a b. a * b / 10);
  half = halve;
}

abbrev pub not_number : Tenths → Bool
not_number (tenth a) = false
not_number nan = true

pub nan_left : (a b : Tenths) → not_number a ≡ true → compare_by ltb a b ≡ false
nan_left (tenth a) b h = ground arith
nan_left nan b h = refl

pub nan_right : (a b : Tenths) → not_number b ≡ true → compare_by ltb a b ≡ false
nan_right (tenth a) (tenth b) h = ground arith
nan_right (tenth a) nan h = refl
nan_right nan b h = refl

pub irrefl : (a : Tenths) → compare_by ltb a a ≡ false
irrefl (tenth a) = ground arith
irrefl nan = refl

pub le_of_lt : (a b : Tenths) → compare_by ltb a b ≡ true → compare_by leb a b ≡ true
le_of_lt (tenth a) (tenth b) h = ground arith
le_of_lt (tenth a) nan h = ground arith
le_of_lt nan b h = ground arith

pub le_of_ge :
    (a b : Tenths)
    → not_number a ≡ false
    → not_number b ≡ false
    → compare_by ltb b a ≡ false
    → compare_by leb a b ≡ true
le_of_ge (tenth a) (tenth b) p q h = ground arith
le_of_ge (tenth a) nan p q h = ground arith
le_of_ge nan b p q h = ground arith

abbrev pub tenths_ordered : IsOrdered tenths_floats
tenths_ordered = record {
  is_nan = not_number;
  less_nan_left = nan_left;
  less_nan_right = nan_right;
  less_irrefl = irrefl;
  less_eq_of_less = le_of_lt;
  less_eq_of_not_less = le_of_ge;
}
