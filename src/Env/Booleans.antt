-- ===== src/Env/Booleans.antt =====
-- Boolean variables: the spellings that are recognised, and the strict reader against the plain one.
use netix_backend.Prelude.{
  ◌∙◌, ◌≡◌, ◌≢◌, ◌↔◌, inl, inr, refl, ap, arith, Bool, false, [], Option, none, some, String,
  Option-cases, contains,
}
use netix_backend.Text.{lower}
use netix_backend.Env.{
  Environ, flag, lookup, recognise, parse_bool, env_bool, env_bool_strict, truthy, falsy,
  or_default, strict_verdict,
}
use netix_backend.Env.Lookup.{lookup_clean}

strict_verdict-default :
    (name raw : String) (default : Bool) (o : Option Bool)
    → (strict_verdict name raw default o).0 ≡ or_default default o
strict_verdict-default name raw default none = refl
strict_verdict-default name raw default (some b) = refl

-- The strict reader returns what the plain one returns.
pub env_bool_strict-eq-env_bool :
    (env : Environ) (name : String) (default : Bool)
    → (env_bool_strict env name default).0 ≡ env_bool env name (flag default)
unfolding env_bool_strict env_bool parse_bool
env_bool_strict-eq-env_bool env name default = elim (Option-cases (lookup env name)) [
  | inl unset ↦ rw (unset, env_bool_strict)
  | inr (raw, e) ↦
      rw (e, env_bool_strict)
        (rw (lookup_clean env name raw e).1
          (strict_verdict-default name raw default (recognise (lower raw))))
]

-- A variable that is set to a text outside both sets of spellings.
abbrev pub IsUnrecognised : Environ → String → Type 0
IsUnrecognised env name =
    (raw : String) × (lookup env name ≡ some raw)
    × (contains truthy (lower raw) ≡ false)
    × (contains falsy (lower raw) ≡ false)

verdict_logs :
    (name raw : String) (default : Bool) (o : Option Bool)
    → ((strict_verdict name raw default o).1 ≢ []) ↔ (o ≡ none)
verdict_logs name raw default none = (λ h. refl, λ e p. cc)
verdict_logs name raw default (some b) = (λ h. absurd (h refl), λ e. absurd (cc))

recognise-eq-none :
    (s : String) → (recognise s ≡ none) ↔ ((contains truthy s ≡ false) × (contains falsy s ≡ false))
unfolding recognise
recognise-eq-none s = ground arith

-- The strict reader logs exactly where the variable is set to no spelling of a boolean.
pub env_bool_strict_logs :
    (env : Environ) (name : String) (default : Bool)
    → ((env_bool_strict env name default).1 ≢ []) ↔ IsUnrecognised env name
unfolding env_bool_strict
env_bool_strict_logs env name default = elim (Option-cases (lookup env name)) [
  | inl unset ↦ (λ h. absurd (h (rw (unset, env_bool_strict))), λ u. ground arith)
  | inr (raw, e) ↦
      rw (e, env_bool_strict)
        (
          λ h.
              let u = (recognise-eq-none (lower raw)).0 ((verdict_logs name raw default _).0 h) in
              (raw, refl, u.0, u.1),
          λ u.
              let same : raw ≡ u.0 = cc in
              (verdict_logs name raw default _).1
                (ap (λ t. recognise (lower t)) same ∙ (recognise-eq-none (lower u.0)).1 (u.2, u.3)),
        )
]
