-- ===== src/Env/Credentials.antt =====
-- The pod's own credential, and the other reads that fall back over a list of names.
use netix_backend.Prelude.{
  ◌≡◌, ◌≢◌, ◌↔◌, arith, List, Option, none, some, String, ok, err, or_raise,
}
use netix_backend.Text.{strip}
use netix_backend.Env.{
  Environ, ConfigurationError, missing, first_set, service_authorization, credential_names,
}
use netix_backend.Env.Lookup.{
  IsFirstSet, first_set-IsFirstSet, IsFirstSet-first_set, IsFirstSet-clean, AllUnset,
  first_set-none,
}

or_raise-ok :
    {E : Type 0} {A : Type 0} (e : E) (o : Option A) (a : A) → (or_raise e o ≡ ok a) ↔ (o ≡ some a)
or_raise-ok e none a = ground arith
or_raise-ok e (some b) a = ground arith

or_raise-err :
    {E : Type 0} {A : Type 0} (e f : E) (o : Option A)
    → (or_raise e o ≡ err f) ↔ ((o ≡ none) × (f ≡ e))
or_raise-err e f none = ground arith
or_raise-err e f (some b) = ground arith

-- A credential is returned exactly when it is the value of the first name, in order and the
-- fallback last, that has one.
pub service_authorization-ok :
    (env : Environ) (env_names : List String) (fallback v : String)
    → (service_authorization env env_names fallback ≡ ok v)
      ↔ IsFirstSet env v (credential_names env_names fallback)
unfolding service_authorization
service_authorization-ok env env_names fallback v =
    let names = credential_names env_names fallback in
    let (to, from) = or_raise-ok (missing names) (first_set env names) v in
    (λ h. first_set-IsFirstSet env names v (to h), λ r. from (IsFirstSet-first_set env v names r))

-- A returned credential is never empty and carries no space at its ends.
pub service_authorization-ne-empty :
    (env : Environ) (env_names : List String) (fallback v : String)
    → service_authorization env env_names fallback ≡ ok v
    → (v ≢ "") × (strip v ≡ v)
service_authorization-ne-empty env env_names fallback v h =
    IsFirstSet-clean env v (credential_names env_names fallback)
      ((service_authorization-ok env env_names fallback v).0 h)

-- It raises exactly when no name has a value, and the error names them all.
pub service_authorization-err :
    (env : Environ) (env_names : List String) (fallback : String) (e : ConfigurationError)
    → (service_authorization env env_names fallback ≡ err e) ↔ (
        AllUnset env (credential_names env_names fallback)
        × (e ≡ missing (credential_names env_names fallback)))
unfolding service_authorization
service_authorization-err env env_names fallback e =
    let names = credential_names env_names fallback in
    let (to, from) = or_raise-err (missing names) e (first_set env names) in
    (
      λ h. ((first_set-none env names).0 (to h).0, (to h).1),
      λ h. from ((first_set-none env names).1 h.0, h.1),
    )
