-- ===== src/Text/Digits.antt =====
-- Decimal digits: `int(text)`, and the digits that `str(number)` writes.
use Prim.Native.Char.{Char, code}
use Prim.Native.String.{[], ◌∷◌}
use netix_backend.Prelude.{
  ℕ, zero, suc, ◌+◌, ◌*◌, ◌/◌, ◌%◌, ◌<◌, ◌≡◌, refl, Bool, true, false, ◌&&◌, Option, none, some,
  String, arith, ltb, ◌==◌, if◌then◌else◌, Bool-cases, inl, inr, ap, ◌∙◌,
}
use netix_backend.Prelude.Int.{ℤ, pos, sub_ℕ}
use netix_backend.Text.Zeros.{decimal_zeros, digit_in}
use netix_backend.Text.{strip}

-- The value of a digit, as `int` and the regular expression `\d` read it.
unfoldable pub digit_value : Char → Option ℕ
unfolding digit_in
digit_value c = digit_in decimal_zeros (code c)

-- The digits behind a sign; one `_` may stand between two digits.
unfoldable pub int_digits : ℕ → Bool → String → Option ℕ
int_digits acc seen [] = if seen then some acc else none
int_digits acc seen (c ∷ s) = elim (digit_value c) [
  | some d ↦ int_digits (acc * 10 + d) true s
  | none ↦ elim (seen && code c == b'_') [ true ↦ int_digits acc false s | false ↦ none ]
]

abbrev negate : Option ℕ → Option ℤ
negate none = none
negate (some n) = some (sub_ℕ 0 n)

abbrev positive : Option ℕ → Option ℤ
positive none = none
positive (some n) = some (pos n)

-- int(text); `none` is the ValueError.
unfoldable pub int_signed : String → Option ℤ
int_signed [] = none
int_signed (c ∷ s) =
    if code c == b'-'
    then negate (int_digits 0 false s)
    else if code c == b'+'
    then positive (int_digits 0 false s)
    else positive (int_digits 0 false (c ∷ s))

unfoldable pub parse_int : String → Option ℤ
parse_int s = int_signed (strip s)

-- The character of a digit; 9 stands for whatever is larger.
unfoldable pub digit_char : ℕ → Char
digit_char zero = "0"
digit_char (suc zero) = "1"
digit_char (suc (suc zero)) = "2"
digit_char (suc (suc (suc zero))) = "3"
digit_char (suc (suc (suc (suc zero)))) = "4"
digit_char (suc (suc (suc (suc (suc zero))))) = "5"
digit_char (suc (suc (suc (suc (suc (suc zero)))))) = "6"
digit_char (suc (suc (suc (suc (suc (suc (suc zero))))))) = "7"
digit_char (suc (suc (suc (suc (suc (suc (suc (suc zero)))))))) = "8"
digit_char _ = "9"

pub digit_value-digit_char : (d : ℕ) → d < 10 → digit_value (digit_char d) ≡ some d
unfolding digit_value digit_char
digit_value-digit_char zero h = refl
digit_value-digit_char (suc zero) h = refl
digit_value-digit_char (suc (suc zero)) h = refl
digit_value-digit_char (suc (suc (suc zero))) h = refl
digit_value-digit_char (suc (suc (suc (suc zero)))) h = refl
digit_value-digit_char (suc (suc (suc (suc (suc zero))))) h = refl
digit_value-digit_char (suc (suc (suc (suc (suc (suc zero)))))) h = refl
digit_value-digit_char (suc (suc (suc (suc (suc (suc (suc zero))))))) h = refl
digit_value-digit_char (suc (suc (suc (suc (suc (suc (suc (suc zero)))))))) h = refl
digit_value-digit_char (suc (suc (suc (suc (suc (suc (suc (suc (suc zero))))))))) h = refl
digit_value-digit_char (suc (suc (suc (suc (suc (suc (suc (suc (suc (suc d)))))))))) h =
    absurd (omega arith)

-- The digits of `n` in front of a text, the last digit first; the fuel is a number above `n`.
unfoldable pub digits_before : ℕ → ℕ → String → String
digits_before zero n s = s
digits_before (suc fuel) n s =
    let rest = digits_before fuel (n / 10) (digit_char (n % 10) ∷ s) in
    if ltb n 10 then digit_char n ∷ s else rest

-- str(n) in front of a text: `str(n) + s`.
unfoldable pub show_before : ℕ → String → String
show_before n s = digits_before (suc n) n s

-- What any reader of digits from the left, `read`, makes of the digits of `n`: it has read `n` when
-- it comes to the text behind them.
module _ {ℓ} {A : Type ℓ} (read : ℕ → Bool → String → A)
    (step : (acc d : ℕ) (seen : Bool) (s : String)
      → d < 10
      → read acc seen (digit_char d ∷ s) ≡ read (acc * 10 + d) true s) where
  digits_before-read :
      (fuel n : ℕ) (s : String) → n < fuel → read 0 false (digits_before fuel n s) ≡ read n true s
  unfolding digits_before
  digits_before-read zero n s h = absurd (omega arith)
  digits_before-read (suc fuel) n s h = elim (Bool-cases (ltb n 10)) [
    | inl small ↦ rw small (step 0 n false s (ground arith) ∙ ap (λ m. read m true s) (omega arith))
    | inr large ↦ rw large (
        digits_before-read fuel (n / 10) (digit_char (n % 10) ∷ s) (ground arith)
        ∙ step (n / 10) (n % 10) true s (omega arith)
        ∙ ap (λ m. read m true s) (omega arith))
  ]

  pub read-show_before : (n : ℕ) (s : String) → read 0 false (show_before n s) ≡ read n true s
  unfolding show_before
  read-show_before n s = digits_before-read (suc n) n s (omega arith)
