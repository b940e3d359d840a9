-- ===== src/Cloning/Keys.antt =====
-- Writing a key for an organization and reading its owner and base back.
use Prim.Native.Char.{Char}
use Prim.Native.String
use Prim.Native.String.{[], ◌∷◌}
use text.Mathlib.TextLemmas.{append_assoc, cons-append, nil-append}
use netix_backend.Prelude.{
  if◌then◌else◌, ◌≢◌, ◌/◌, ◌%◌, suc, zero, ◌↔◌, Bool-cases, inl, inr, ltb, ℕ, ◌+◌, ◌*◌, ◌<◌, ◌≡◌,
  refl, ap, ◌∙◌, Bool, true, false, Option, none, some, String, arith,
}
use netix_backend.Prelude.Int.{ℤ, pos, negsuc, eqb_ℤ_iff}
use netix_backend.Text.Digits.{
  digit_char, digit_value, digit_value-digit_char, show_before, digits_before, read-show_before,
}
use netix_backend.Text.Show.{show_int}
use netix_backend.Cloning.{
  match_org, match_key, base_key, org_prefix, org_key, key_owner, is_org_key, base_of, owner_of,
  same_owner,
}

-- What stands behind the digits passes through their printing.
digits_before-append :
    (fuel n : ℕ) (s t : String)
    → String.◌++◌ (digits_before fuel n s) t ≡ digits_before fuel n (String.◌++◌ s t)
unfolding digits_before
digits_before-append zero n s t = refl
digits_before-append (suc fuel) n s t = elim (Bool-cases (ltb n 10)) [
  | inl small ↦ rw (small, digits_before) (cons-append (digit_char n) s t)
  | inr large ↦
      rw (large, digits_before)
        (digits_before-append fuel (n / 10) (digit_char (n % 10) ∷ s) t
          ∙ ap (digits_before fuel (n / 10)) (cons-append (digit_char (n % 10)) s t))
]

show_before-append : (n : ℕ) (t : String) → String.◌++◌ (show_before n "") t ≡ show_before n t
unfolding show_before
show_before-append n t =
    digits_before-append (suc n) n "" t ∙ ap (digits_before (suc n) n) (nil-append t)

match_org-step :
    (org d : ℕ) (seen : Bool) (s : String)
    → d < 10
    → match_org org seen (digit_char d ∷ s) ≡ match_org (org * 10 + d) true s
unfolding match_org
match_org-step org d seen s h = rw (digit_value-digit_char d h, match_org)

match_org-end : (n : ℕ) (base : String) → match_org n true ("_" ∷ base) ≡ some (n, base)
unfolding match_org digit_value
match_org-end n base = refl

one-append : (c : Char) (s : String) → String.◌++◌ (c ∷ "") s ≡ c ∷ s
one-append c s = cons-append c "" s ∙ ap (λ t. c ∷ t) (nil-append s)

nc-append : (s t : String) → String.◌++◌ (String.◌++◌ "nc" s) t ≡ "n" ∷ "c" ∷ String.◌++◌ s t
nc-append s t =
    append_assoc "nc" s t
    ∙ cons-append "n" "c" (String.◌++◌ s t)
    ∙ ap (λ u. "n" ∷ u) (one-append "c" (String.◌++◌ s t))

-- A key as the digits of its owner between "nc" and "_".
org_key_shape :
    (name : String) (n : ℕ) → org_key name (pos n) ≡ "n" ∷ "c" ∷ show_before n ("_" ∷ base_key name)
unfolding org_key org_prefix show_int
org_key_shape name n =
    nc-append (String.◌++◌ (show_before n "") "_") (base_key name)
    ∙ ap (λ s. "n" ∷ "c" ∷ s)
        (append_assoc (show_before n "") "_" (base_key name)
          ∙ show_before-append n (String.◌++◌ "_" (base_key name))
          ∙ ap (show_before n) (one-append "_" (base_key name)))

match_key-org_key :
    (name : String) (n : ℕ) → match_key (org_key name (pos n)) ≡ some (n, base_key name)
unfolding match_key
match_key-org_key name n =
    ap match_key (org_key_shape name n)
    ∙ read-show_before match_org match_org-step n ("_" ∷ base_key name)
    ∙ match_org-end n (base_key name)

-- A key that was made for an organization whose id is not negative belongs to it, is recognised as
-- its own, and keeps the name's base.
pub key_owner-org_key :
    (name : String) (n : ℕ)
    → (key_owner (org_key name (pos n)) ≡ some (pos n))
      × (base_key (org_key name (pos n)) ≡ base_key name)
      × (is_org_key (org_key name (pos n)) (pos n) ≡ true)
unfolding key_owner base_key is_org_key
key_owner-org_key name n = (
  ap owner_of (match_key-org_key name n),
  rw (match_key-org_key name n),
  rw (match_key-org_key name n) (ground arith),
)

-- Making a key of a key replaces its owner: the last organization alone counts.
pub org_key-org_key :
    (name : String) (m : ℕ) (z : ℤ) → org_key (org_key name (pos m)) z ≡ org_key name z
unfolding org_key
org_key-org_key name m z = ap (String.◌++◌ (org_prefix z)) (key_owner-org_key name m).1

-- Exactly the keys of an organization are recognised as its own.
pub is_org_key_iff :
    (name : String) (z : ℤ) → (is_org_key name z ≡ true) ↔ (key_owner name ≡ some z)
unfolding is_org_key
is_org_key_iff name z = by_owner (key_owner name)
  where
    by_owner : (o : Option ℤ) → (same_owner o z ≡ true) ↔ (o ≡ some z)
    by_owner none = ground arith
    by_owner (some org) = ground (arith, eqb_ℤ_iff org z)

-- No key has a negative owner.
pub key_owner-nonneg : (name : String) (n : ℕ) → key_owner name ≢ some (negsuc n)
unfolding key_owner
key_owner-nonneg name n = by_match (match_key name)
  where
    by_match : (o : Option (ℕ × String)) → owner_of o ≢ some (negsuc n)
    by_match none = cc
    by_match (some (org, base)) = cc

-- The key of a negative organization is no key to `match_key`, so making it twice nests it.
match_key-negative : (name : String) (n : ℕ) → match_key (org_key name (negsuc n)) ≡ none
unfolding match_key org_key org_prefix show_int
match_key-negative name n =
    ap match_key (
      nc-append (String.◌++◌ (String.◌∷◌ "-" (show_before (suc n) "")) "_") (base_key name)
      ∙ ap (λ s. "n" ∷ "c" ∷ s)
          (append_assoc ("-" ∷ show_before (suc n) "") "_" (base_key name)
            ∙ cons-append "-" (show_before (suc n) "") (String.◌++◌ "_" (base_key name))))
    ∙ minus (String.◌++◌ (show_before (suc n) "") (String.◌++◌ "_" (base_key name)))
  where
    minus : (s : String) → match_org 0 false ("-" ∷ s) ≡ none
    minus s = unfold match_org digit_value in refl

-- For a negative organization id making the key again puts a second prefix before the first.
pub org_key_nests_negative :
    (name : String) (n : ℕ)
    → org_key (org_key name (negsuc n)) (negsuc n)
      ≡ String.◌++◌ (org_prefix (negsuc n)) (org_key name (negsuc n))
unfolding org_key base_key
org_key_nests_negative name n =
    ap (λ o. String.◌++◌ (org_prefix (negsuc n)) (base_of (org_key name (negsuc n)) o))
      (match_key-negative name n)

-- The pattern of a key reads an id that is not negative.
abbrev pub is_readable : ℤ → Bool
is_readable (pos n) = true
is_readable (negsuc n) = false

-- A key that was made for an organization whose id is not negative belongs to it, is recognised as
-- its own, and keeps the name's base. A key that was made for a negative id belongs to nobody, is not
-- recognised as its own, and is its own base, so that making it again nests it.
pub org_key_read_back :
    (name : String) (z : ℤ)
    → (key_owner (org_key name z) ≡ (if is_readable z then some z else none))
      × (base_key (org_key name z) ≡ (if is_readable z then base_key name else org_key name z))
      × (is_org_key (org_key name z) z ≡ is_readable z)
unfolding key_owner base_key is_org_key
org_key_read_back name (pos n) = key_owner-org_key name n
org_key_read_back name (negsuc n) = (
  ap owner_of (match_key-negative name n),
  ap (base_of (org_key name (negsuc n))) (match_key-negative name n),
  ap (λ o. same_owner (owner_of o) (negsuc n)) (match_key-negative name n),
)
