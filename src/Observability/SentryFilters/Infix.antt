-- ===== src/Observability/SentryFilters/Infix.antt =====
-- `text in other`: whether a text stands in another.
use Prim.Native.Char.{code}
use Prim.Native.String.{[], ◌∷◌}
use netix_backend.Prelude.{◌==◌, Bool, true, false, ◌&&◌, ◌||◌, String}

unfoldable pub is_prefix : String → String → Bool
is_prefix [] s = true
is_prefix (c ∷ p) [] = false
is_prefix (c ∷ p) (d ∷ s) = code c == code d && is_prefix p s

unfoldable pub is_infix : String → String → Bool
is_infix p [] = is_prefix p []
is_infix p (d ∷ s) = is_prefix p (d ∷ s) || is_infix p s
