-- ===== src/Text/Split.antt =====
-- `str.split` at one character.
use Prim.Native.Char.{Char, code}
use Prim.Native.String.{[], ◌∷◌}
use mathlib.Core.List
use netix_backend.Prelude.{ℕ, ◌==◌, String, if◌then◌else◌}

-- A word more, and a character more in the first word.
abbrev word : String → List.List String → List.List String
word = List.◌∷◌

abbrev prefixed : Char → List.List String → List.List String
prefixed c = elim [ List.[] ↦ word (c ∷ []) List.[] | List.◌∷◌ w ws ↦ word (c ∷ w) ws ]

-- s.split(c), of one character by its code.
unfoldable pub split : ℕ → String → List.List String
split n [] = word [] List.[]
split n (c ∷ s) = let rest = split n s in if code c == n then word [] rest else prefixed c rest
