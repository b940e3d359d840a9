-- ===== src/Env/Lookup.antt =====
-- What `lookup` returns, and the order in which `first_set` tries the names.
use netix_backend.Prelude.{
  ◌≡◌, ◌≢◌, ◌↔◌, inl, inr, sym, ap, ◌∙◌, arith, List, [], ◌∷◌, none, some, String, All,
  Option-cases, eq_iff,
}
use netix_backend.Text.{strip}
use netix_backend.Text.Strip.{strip-strip}
use netix_backend.Env.{Environ, lookup, first_set, or_none}

or_none-strip : (s v : String) → or_none (strip s) ≡ some v → (v ≢ "") × (strip v ≡ v)
or_none-strip s v h =
    let e : strip s ≡ v = ground (arith, eq_iff (strip s) "") in
    (ground (arith, eq_iff (strip s) ""), subst-strip e)
  where
    subst-strip : strip s ≡ v → strip v ≡ v
    subst-strip e = ap strip (sym e) ∙ strip-strip s ∙ e

-- A value that is read is neither empty nor surrounded by space.
pub lookup_clean :
    (env : Environ) (name v : String) → lookup env name ≡ some v → (v ≢ "") × (strip v ≡ v)
unfolding lookup
lookup_clean env name v h = elim (Option-cases (env name)) [
  | inl unset ↦ ground arith
  | inr (raw, e) ↦ or_none-strip raw v (ground arith)
]

-- `name` is the first of the names with a value, and `v` is that value.
pub data IsFirstSet (env : Environ) (v : String) : List String → Type 0 where
  here :
      {name : String} {names : List String}
      → lookup env name ≡ some v
      → IsFirstSet env v (name ∷ names)
  later :
      {name : String} {names : List String}
      → lookup env name ≡ none
      → IsFirstSet env v names
      → IsFirstSet env v (name ∷ names)

pub first_set-IsFirstSet :
    (env : Environ) (names : List String) (v : String)
    → first_set env names ≡ some v
    → IsFirstSet env v names
unfolding first_set
first_set-IsFirstSet env [] v h = absurd (cc)
first_set-IsFirstSet env (name ∷ names) v h = elim (Option-cases (lookup env name)) [
  | inl unset ↦ later unset (first_set-IsFirstSet env names v (ground arith))
  | inr (w, e) ↦ here (ground arith)
]

pub IsFirstSet-first_set :
    (env : Environ) (v : String) (names : List String)
    → IsFirstSet env v names
    → first_set env names ≡ some v
unfolding first_set
IsFirstSet-first_set env v _ (here e) = ground arith
IsFirstSet-first_set env v _ (later {name} {names} e r) =
    ground (arith, IsFirstSet-first_set env v names r)

pub IsFirstSet-clean :
    (env : Environ) (v : String) (names : List String)
    → IsFirstSet env v names
    → (v ≢ "") × (strip v ≡ v)
IsFirstSet-clean env v _ (here {name} e) = lookup_clean env name v e
IsFirstSet-clean env v _ (later {names} e r) = IsFirstSet-clean env v names r

abbrev pub AllUnset : Environ → List String → Type 0
AllUnset env names = All (λ name. lookup env name ≡ none) names

pub first_set-none :
    (env : Environ) (names : List String) → (first_set env names ≡ none) ↔ AllUnset env names
unfolding first_set
first_set-none env [] = ground arith
first_set-none env (name ∷ names) = ground (arith, first_set-none env names)
