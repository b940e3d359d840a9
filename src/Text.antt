-- ===== src/Text.antt =====
-- The parts of Python's `str` and `int` that the library uses, over code points.
pub mod Strip
pub mod Zeros
pub mod Digits
pub mod Show
pub mod Split
use Prim.Native.Char.{Char, code}
use Prim.Native.String
use Prim.Native.String.{[], ◌∷◌}
use netix_backend.Prelude.{ℕ, ◌==◌, ◌&&◌, ◌||◌, Bool, String, if◌then◌else◌, leb}

-- The ranges of `str.isspace`, as `(first, last)` code points.
abbrev between : ℕ → ℕ → ℕ → Bool
between lo hi c = leb lo c && leb c hi

unfoldable pub is_space : Char → Bool
is_space ch =
    let c = code ch in
    between 0x9 0xd c
    || between 0x1c 0x20 c
    || c == 0x85
    || c == 0xa0
    || c == 0x1680
    || between 0x2000 0x200a c
    || between 0x2028 0x2029 c
    || c == 0x202f
    || c == 0x205f
    || c == 0x3000

unfoldable pub lstrip : String → String
lstrip [] = []
lstrip (c ∷ s) = let rest = lstrip s in if is_space c then rest else c ∷ s

-- Only a last character with nothing but space behind it is dropped.
abbrev cons_unless_blank : Char → String → String
cons_unless_blank c [] = if is_space c then [] else c ∷ []
cons_unless_blank c (d ∷ s) = c ∷ d ∷ s

unfoldable pub rstrip : String → String
rstrip [] = []
rstrip (c ∷ s) = cons_unless_blank c (rstrip s)

abbrev cons_unless : ℕ → Char → String → String
cons_unless n c [] = if code c == n then [] else c ∷ []
cons_unless n c (d ∷ s) = c ∷ d ∷ s

-- s.rstrip(c), of one character by its code.
unfoldable pub rstrip_char : ℕ → String → String
rstrip_char n [] = []
rstrip_char n (c ∷ s) = cons_unless n c (rstrip_char n s)

-- s.strip()
unfoldable pub strip : String → String
unfolding lstrip rstrip is_space
strip s = rstrip (lstrip s)

-- A character's partner in a second text, at its place in the first.
unfoldable pub translate : String → String → Char → Char
translate (f ∷ fs) (t ∷ ts) c = if code f == code c then t else translate fs ts c
translate _ _ c = c

-- s.lower(), where the result is compared with ASCII texts: besides A-Z, the one character whose
-- lower case is ASCII is the Kelvin sign.
abbrev lower_char : Char → Char
unfolding translate
lower_char = translate "ABCDEFGHIJKLMNOPQRSTUVWXYZK" "abcdefghijklmnopqrstuvwxyzk"

unfoldable pub lower : String → String
unfolding translate
lower [] = []
lower (c ∷ s) = lower_char c ∷ lower s

-- What a character other than a-z becomes, where its upper case is ASCII.
abbrev upper_special : ℕ → String → String
upper_special c other =
    if c == 0xdf
    then "SS"
    else if c == 0xfb00
    then "FF"
    else if c == 0xfb01
    then "FI"
    else if c == 0xfb02
    then "FL"
    else if c == 0xfb03
    then "FFI"
    else if c == 0xfb04
    then "FFL"
    else if c == 0xfb05 || c == 0xfb06
    then "ST"
    else other

abbrev upper_char : Char → String
unfolding translate
upper_char c =
    upper_special (code c)
      (translate "abcdefghijklmnopqrstuvwxyzıſ" "ABCDEFGHIJKLMNOPQRSTUVWXYZIS" c ∷ [])

-- s.upper(), where the result is compared with ASCII texts.
unfoldable pub upper : String → String
unfolding translate
upper [] = []
upper (c ∷ s) = String.◌++◌ (upper_char c) (upper s)
