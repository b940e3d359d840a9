-- ===== src/Env.antt =====
-- netix_backend/env.py: typed reads of environment variables.
pub mod Lookup
pub mod Booleans
pub mod Credentials
pub mod Numbers
mod Tests
use netix_backend.Prelude.{
  ◌≡◌, Bool, true, false, ◌++◌, List, [], ◌∷◌, Option, none, some, String, str_eq, contains,
  if◌then◌else◌, Result, ok, err, or_raise,
}
use netix_backend.Prelude.Int.{ℤ}
use netix_backend.Text.{strip, lower}
use netix_backend.Text.Digits.{parse_int}

-- `os.environ`: the value of each variable that is set.
abbrev pub Environ : Type 0
Environ = String → Option String

abbrev pub truthy : List String
truthy = "1" ∷ "true" ∷ "yes" ∷ "on" ∷ []

abbrev pub falsy : List String
falsy = "0" ∷ "false" ∷ "no" ∷ "off" ∷ []

-- The messages of `ConfigurationError`.
pub data ConfigurationError : Type 0 where
  missing : List String → ConfigurationError
  not_an_integer not_a_number : (name raw : String) → ConfigurationError

-- The record that `env_bool_strict` logs at level ERROR.
pub record BadBoolean : Type 0 where
  pub name : String
  pub raw : String
  pub treated_as : Bool

-- `text or None`
abbrev pub or_none : String → Option String
or_none s = if str_eq s "" then none else some s

unfoldable pub lookup : Environ → String → Option String
lookup env name = elim (env name) [ none ↦ none | some value ↦ or_none (strip value) ]

-- The two membership tests, on a text that is in lower case already.
unfoldable pub recognise : String → Option Bool
recognise normalized =
    if contains truthy normalized
    then some true
    else if contains falsy normalized
    then some false
    else none

abbrev pub or_default {ℓ} : {A : Type ℓ} → A → Option A → A
or_default d none = d
or_default d (some a) = a

unfoldable pub parse_bool : Option String → Bool → Bool
parse_bool none default = default
parse_bool (some value) default = or_default default (recognise (lower (strip value)))

-- The default of `env_bool`: a bool, or the spelling of one.
pub data BoolDefault : Type 0 where
  flag : Bool → BoolDefault
  spelled : String → BoolDefault

unfoldable pub env_bool : Environ → String → BoolDefault → Bool
env_bool env name (flag b) = parse_bool (lookup env name) b
env_bool env name (spelled s) = parse_bool (lookup env name) (parse_bool (some s) false)

abbrev strict_verdict : String → String → Bool → Option Bool → Bool × List BadBoolean
strict_verdict name raw default (some b) = (b, [])
strict_verdict name raw default none =
    (default, record { name = name; raw = raw; treated_as = default } ∷ [])

-- The value, and what was logged.
unfoldable pub env_bool_strict : Environ → String → Bool → Bool × List BadBoolean
env_bool_strict env name default = elim (lookup env name) [
  | none ↦ (default, [])
  | some raw ↦ strict_verdict name raw default (recognise (lower raw))
]

-- The first value that is set among `names`.
unfoldable pub first_set : Environ → List String → Option String
first_set env [] = none
first_set env (name ∷ names) = elim (lookup env name) [
  | none ↦ first_set env names
  | some value ↦ some value
]

abbrev or_missing :
    List String → Option String → Bool → Option String → Result ConfigurationError (Option String)
or_missing names default required (some value) = ok (some value)
or_missing names default true none = err (missing names)
or_missing names default false none = ok default

unfoldable pub env_str :
    Environ → String → Option String → Bool → Result ConfigurationError (Option String)
env_str env name default required = or_missing (name ∷ []) default required (lookup env name)

unfoldable pub env_first :
    Environ → List String → Option String → Bool → Result ConfigurationError (Option String)
env_first env names default required = or_missing names default required (first_set env names)

unfoldable pub env_int : Environ → String → ℤ → Result ConfigurationError ℤ
env_int env name default = elim (lookup env name) [
  | none ↦ ok default
  | some raw ↦ or_raise (not_an_integer name raw) (parse_int raw)
]

-- `parse_float` is Python's `float(text)`; `none` is its ValueError.
unfoldable pub env_float {ℓ} :
    {F : Type ℓ} → (String → Option F) → Environ → String → F → Result ConfigurationError F
env_float parse_float env name default = elim (lookup env name) [
  | none ↦ ok default
  | some raw ↦ or_raise (not_a_number name raw) (parse_float raw)
]

-- The names that are tried: a fallback of "" is none.
abbrev pub credential_names : List String → String → List String
credential_names env_names fallback =
    if str_eq fallback "" then env_names else env_names ++ fallback ∷ []

unfoldable pub service_authorization :
    Environ → List String → String → Result ConfigurationError String
service_authorization env env_names fallback =
    let names = credential_names env_names fallback in
    or_raise (missing names) (first_set env names)
