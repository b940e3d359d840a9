-- ===== src/Text/Show.antt =====
-- `str(number)`, and that `int` reads it back.
use Prim.Native.Char.{code}
use Prim.Native.String.{[], ◌∷◌}
use netix_backend.Prelude.{
  ℕ, zero, suc, ◌+◌, ◌*◌, ◌/◌, ◌%◌, ◌<◌, ◌≡◌, ◌≢◌, refl, ap, ◌∙◌, Bool, true, false, some, String,
  arith, ltb, Bool-cases, inl, inr,
}
use netix_backend.Prelude.Int.{ℤ, pos, negsuc}
use netix_backend.Text.{is_space, lstrip, rstrip, strip, cons_unless_blank}
use netix_backend.Text.Digits.{
  digit_char, digit_value-digit_char, int_digits, int_signed, parse_int, digits_before, show_before,
  read-show_before,
}

unfoldable pub show_int : ℤ → String
show_int (pos n) = show_before n ""
show_int (negsuc n) = "-" ∷ show_before (suc n) ""

-- A text whose characters are no space.
abbrev HasNoSpace : String → Type 0
HasNoSpace [] = Unit
HasNoSpace (c ∷ s) = (is_space c ≡ false) × HasNoSpace s

rstrip_of_HasNoSpace : (s : String) → HasNoSpace s → rstrip s ≡ s
unfolding rstrip
rstrip_of_HasNoSpace [] h = refl
rstrip_of_HasNoSpace (c ∷ s) (p, h) = ap (cons_unless_blank c) (rstrip_of_HasNoSpace s h) ∙ keep s
  where
    keep : (r : String) → cons_unless_blank c r ≡ c ∷ r
    keep [] = ground arith
    keep (d ∷ r) = refl

strip_of_HasNoSpace : (s : String) → HasNoSpace s → strip s ≡ s
unfolding strip lstrip
strip_of_HasNoSpace [] h = refl
strip_of_HasNoSpace (c ∷ s) (p, h) = rw p (rstrip_of_HasNoSpace (c ∷ s) (p, h))

-- Shutting the choice of a digit's character keeps the next proofs to one case.
is_space-digit_char : (d : ℕ) → is_space (digit_char d) ≡ false
unfolding is_space digit_char
is_space-digit_char zero = refl
is_space-digit_char (suc zero) = refl
is_space-digit_char (suc (suc zero)) = refl
is_space-digit_char (suc (suc (suc zero))) = refl
is_space-digit_char (suc (suc (suc (suc zero)))) = refl
is_space-digit_char (suc (suc (suc (suc (suc zero))))) = refl
is_space-digit_char (suc (suc (suc (suc (suc (suc zero)))))) = refl
is_space-digit_char (suc (suc (suc (suc (suc (suc (suc zero))))))) = refl
is_space-digit_char (suc (suc (suc (suc (suc (suc (suc (suc zero)))))))) = refl
is_space-digit_char _ = refl

-- "-" stands before "0", and so does "+".
digit_char_ge : (d : ℕ) → (m : ℕ) × (code (digit_char d) ≡ 48 + m)
unfolding digit_char
digit_char_ge zero = (0, refl)
digit_char_ge (suc zero) = (1, refl)
digit_char_ge (suc (suc zero)) = (2, refl)
digit_char_ge (suc (suc (suc zero))) = (3, refl)
digit_char_ge (suc (suc (suc (suc zero)))) = (4, refl)
digit_char_ge (suc (suc (suc (suc (suc zero))))) = (5, refl)
digit_char_ge (suc (suc (suc (suc (suc (suc zero)))))) = (6, refl)
digit_char_ge (suc (suc (suc (suc (suc (suc (suc zero))))))) = (7, refl)
digit_char_ge (suc (suc (suc (suc (suc (suc (suc (suc zero)))))))) = (8, refl)
digit_char_ge _ = (9, refl)

-- A text that begins with a digit.
abbrev BeginsWithDigit : String → Type 0
BeginsWithDigit s = (d : ℕ) × (rest : String) × (s ≡ digit_char d ∷ rest)

digits_before-begin :
    (fuel n : ℕ) (s : String) → n < fuel → BeginsWithDigit (digits_before fuel n s)
unfolding digits_before
digits_before-begin zero n s h = absurd (omega arith)
digits_before-begin (suc fuel) n s h = elim (Bool-cases (ltb n 10)) [
  | inl small ↦ (n, s, rw small)
  | inr large ↦
      rw large (digits_before-begin fuel (n / 10) (digit_char (n % 10) ∷ s) (ground arith))
]

digits_before-HasNoSpace :
    (fuel n : ℕ) (s : String) → HasNoSpace s → HasNoSpace (digits_before fuel n s)
unfolding digits_before
digits_before-HasNoSpace zero n s h = h
digits_before-HasNoSpace (suc fuel) n s h = elim (Bool-cases (ltb n 10)) [
  | inl small ↦ rw small (is_space-digit_char n, h)
  | inr large ↦ rw large (
      digits_before-HasNoSpace fuel (n / 10) (digit_char (n % 10) ∷ s)
        (is_space-digit_char (n % 10), h))
]

show_before-HasNoSpace : (n : ℕ) → HasNoSpace (show_before n "")
unfolding show_before
show_before-HasNoSpace n = digits_before-HasNoSpace (suc n) n "" tt

pub show_before-begin : (n : ℕ) (s : String) → BeginsWithDigit (show_before n s)
unfolding show_before
show_before-begin n s = digits_before-begin (suc n) n s (omega arith)

int_digits-step :
    (acc d : ℕ) (seen : Bool) (s : String)
    → d < 10
    → int_digits acc seen (digit_char d ∷ s) ≡ int_digits (acc * 10 + d) true s
unfolding int_digits
int_digits-step acc d seen s h = rw (digit_value-digit_char d h, int_digits)

int_digits-show : (n : ℕ) → int_digits 0 false (show_before n "") ≡ some n
unfolding int_digits
int_digits-show n = read-show_before int_digits int_digits-step n ""

int_signed-digit :
    (s : String) (n : ℕ)
    → BeginsWithDigit s
    → int_digits 0 false s ≡ some n
    → int_signed s ≡ some (pos n)
unfolding int_signed
int_signed-digit s n (d, rest, e) h =
    rw e (ground (arith, digit_char_ge d, ap (int_digits 0 false) e))

-- `int(str(z))` is `z`.
pub parse_int-show_int : (z : ℤ) → parse_int (show_int z) ≡ some z
unfolding parse_int show_int int_signed is_space
parse_int-show_int (pos n) =
    ap int_signed (strip_of_HasNoSpace (show_before n "") (show_before-HasNoSpace n))
    ∙ int_signed-digit (show_before n "") n (show_before-begin n "") (int_digits-show n)
parse_int-show_int (negsuc n) =
    ap int_signed (strip_of_HasNoSpace (show_int (negsuc n)) (refl, show_before-HasNoSpace (suc n)))
    ∙ rw (int_digits-show (suc n)) (ground arith)

pub show_int_clean : (z : ℤ) → (strip (show_int z) ≡ show_int z) × (show_int z ≢ "")
unfolding show_int is_space
show_int_clean (pos n) = (
  strip_of_HasNoSpace (show_before n "") (show_before-HasNoSpace n),
  λ e. let (d, rest, b) = show_before-begin n "" in cc,
)
show_int_clean (negsuc n) =
    (strip_of_HasNoSpace (show_int (negsuc n)) (refl, show_before-HasNoSpace (suc n)), λ e. cc)
