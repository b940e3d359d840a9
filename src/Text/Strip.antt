-- ===== src/Text/Strip.antt =====
-- What `strip` leaves: no space at either end.
use Prim.Native.String.{[], ◌∷◌}
use netix_backend.Prelude.{Bool-cases, inl, inr, String, ◌≡◌, refl, arith, false, ap, ◌∙◌}
use netix_backend.Text.{is_space, lstrip, rstrip, strip, cons_unless_blank}

abbrev pub NoLeadingSpace : String → Type 0
NoLeadingSpace [] = Unit
NoLeadingSpace (c ∷ s) = is_space c ≡ false

lstrip-NoLeadingSpace : (s : String) → NoLeadingSpace (lstrip s)
unfolding lstrip
lstrip-NoLeadingSpace [] = tt
lstrip-NoLeadingSpace (c ∷ s) = ground (arith, lstrip-NoLeadingSpace s)

lstrip-of_NoLeadingSpace : (s : String) → NoLeadingSpace s → lstrip s ≡ s
unfolding lstrip
lstrip-of_NoLeadingSpace [] h = refl
lstrip-of_NoLeadingSpace (c ∷ s) h = ground arith

rstrip-NoLeadingSpace : (s : String) → NoLeadingSpace s → NoLeadingSpace (rstrip s)
unfolding rstrip
rstrip-NoLeadingSpace [] h = tt
rstrip-NoLeadingSpace (c ∷ s) h = keep (rstrip s)
  where
    keep : (r : String) → NoLeadingSpace (cons_unless_blank c r)
    keep [] = ground arith
    keep (d ∷ r) = h

rstrip-rstrip : (s : String) → rstrip (rstrip s) ≡ rstrip s
unfolding rstrip
rstrip-rstrip [] = refl
rstrip-rstrip (c ∷ s) = keep (rstrip s) (rstrip-rstrip s)
  where
    keep : (r : String) → rstrip r ≡ r → rstrip (cons_unless_blank c r) ≡ cons_unless_blank c r
    keep [] e = elim (Bool-cases (is_space c)) [ inl b ↦ rw b | inr b ↦ rw b (rw b) ]
    keep (d ∷ r) e = ap (cons_unless_blank c) e

-- Stripping a second time changes nothing.
pub strip-strip : (s : String) → strip (strip s) ≡ strip s
unfolding strip
strip-strip s =
    ap rstrip (
      lstrip-of_NoLeadingSpace (rstrip (lstrip s))
        (rstrip-NoLeadingSpace (lstrip s) (lstrip-NoLeadingSpace s)))
    ∙ rstrip-rstrip (lstrip s)
