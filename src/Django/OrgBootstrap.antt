-- ===== src/Django/OrgBootstrap.antt =====
-- netix_backend/django/org_bootstrap.py: the endpoint that clones and tears down an organization.
mod Guarded
mod Tests
use netix_backend.Prelude.{
  ℕ, ◌==◌, Bool, true, false, List, [], ◌∷◌, ◌++◌, Option, none, some, String, str_eq,
  if◌then◌else◌,
}
use netix_backend.Prelude.Int.{ℤ, pos, leb_ℤ}

-- A field of the request's body, as DRF's own field reads it.
pub data Field (A : Type 0) : Type 0 where
  missing malformed : Field A
  given : A → Field A

pub record Body : Type 0 where
  pub organization_id : Field ℤ
  pub source_organization_id : Field ℤ
  pub run_id : Field String

-- The validated data of OrgBootstrapSerializer.
pub record Bootstrap : Type 0 where
  pub organization_id : ℤ
  pub source_organization_id : ℤ
  pub run_id : String

-- IntegerField(min_value=1)
abbrev pub at_least_one : Field ℤ → Option ℤ
at_least_one (given n) = if leb_ℤ (pos 1) n then some n else none
at_least_one _ = none

abbrev pub or_else : {A : Type 0} → A → Field A → Option A
or_else default missing = some default
or_else default malformed = none
or_else default (given a) = some a

abbrev pub bootstrap_of : Option ℤ → Option ℤ → Option String → Option Bootstrap
bootstrap_of (some organization_id) (some source) (some run_id) =
    some (record {
      organization_id = organization_id;
      source_organization_id = source;
      run_id = run_id;
    })
bootstrap_of _ _ _ = none

unfoldable pub validate_bootstrap : Body → Option Bootstrap
validate_bootstrap body =
    bootstrap_of (at_least_one body.organization_id) (or_else (pos 0) body.source_organization_id)
      (or_else "" body.run_id)

abbrev pub teardown_of : Option ℤ → Option String → Option ℤ
teardown_of (some organization_id) (some run_id) = some organization_id
teardown_of _ _ = none

-- OrgTeardownSerializer: the run's id is checked, and goes no further.
unfoldable pub validate_teardown : Body → Option ℤ
validate_teardown body = teardown_of (at_least_one body.organization_id) (or_else "" body.run_id)

-- What a driver does: its statistics, the bound error, or another exception.
pub data Driven (S : Type 0) : Type 0 where
  stats : S → Driven S
  clone_error : String → Driven S
  other_exception : String → Driven S

-- What the view does, in order; a warning names the catalog where there is one.
pub data Effect : Type 0 where
  cloned : (target source : ℤ) → (run_id : Option String) → Effect
  torn_down : (target : ℤ) → Effect
  warned : (organization_id : ℤ) → (catalog : Option String) → (text : String) → Effect

pub data Answer (S : Type 0) : Type 0 where
  -- the guard's own answer
  turned_away : Answer S
  invalid : Answer S
  done : (status organization_id : ℤ) → S → Answer S
  refused : (status : ℤ) → (detail : String) → Answer S
  raised : String → Answer S

-- `x or None`
abbrev pub text_or_none : String → Option String
text_or_none s = if str_eq s "" then none else some s

abbrev pub log_refusal : String → ℤ → String → Effect
log_refusal catalog organization_id text = warned organization_id (text_or_none catalog) text

-- The drivers that `build_org_bootstrap_view` binds, with the catalog.
pub record View (S : Type 0) : Type 0 where
  pub clone : ℤ → ℤ → Option String → Driven S
  pub teardown : ℤ → Driven S
  pub catalog : String

module _ {S : Type 0} (view : View S) where
  -- Behind the driver's call.
  abbrev pub answer : Effect → ℤ → Driven S → List Effect × Answer S
  answer call organization_id (stats s) = (call ∷ [], done (pos 200) organization_id s)
  answer call organization_id (clone_error text) =
      (call ∷ log_refusal view.catalog organization_id text ∷ [], refused (pos 409) text)
  answer call organization_id (other_exception text) = (call ∷ [], raised text)

  abbrev pub clone_with : Option Bootstrap → List Effect × Answer S
  clone_with none = ([], invalid)
  clone_with (some b) =
      answer (cloned b.organization_id b.source_organization_id (text_or_none b.run_id))
        b.organization_id
        (view.clone b.organization_id b.source_organization_id (text_or_none b.run_id))

  abbrev pub tear_down : Option ℤ → List Effect × Answer S
  tear_down none = ([], invalid)
  tear_down (some organization_id) =
      answer (torn_down organization_id) organization_id (view.teardown organization_id)

  -- `admitted` is the verdict of envoy_internal_only.
  unfoldable pub post : (admitted : Bool) → Body → List Effect × Answer S
  post false body = ([], turned_away)
  post true body = clone_with (validate_bootstrap body)

  unfoldable pub delete : (admitted : Bool) → Body → List Effect × Answer S
  delete false body = ([], turned_away)
  delete true body = tear_down (validate_teardown body)
