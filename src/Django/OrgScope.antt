-- ===== src/Django/OrgScope.antt =====
-- netix_backend/django/org_scope.py: a superuser's reads and writes in another organization.
pub mod Gate
mod Tests
use netix_backend.Prelude.{
  Bool, true, false, ◌&&◌, List, [], ◌∷◌, Option, none, some, String, str_eq, if◌then◌else◌, Result,
  ok, err, or_raise, ◌>>=◌,
}
use netix_backend.Prelude.Int.{ℤ}
use netix_backend.Prelude.Dict
use netix_backend.Prelude.Dict.{Dict}
use netix_backend.Text.Digits.{parse_int}
use netix_backend.Django.Views.Identity.{
  Scalar, flag, number, ViewError, permission_denied, validation_error, runtime_error, Request,
  is_superuser,
}
use netix_backend.Django.Views.WriteScope.{Write, inherited, saved, or_else}

-- The class attributes of `SuperuserOrgScopeMixin`.
pub record OrgScope : Type 0 where
  pub superuser_org_query_param : String
  pub superuser_org_scope_field : String
  pub superuser_org_scope_model : Option String
  pub superuser_org_blank_is_absent : Bool
  pub superuser_org_invalid_message : String
  pub superuser_org_forbidden_message : String
  pub superuser_org_ordering : List String
  pub superuser_org_extra_filter : Dict Scalar

abbrev pub default_scope : OrgScope
default_scope = record {
  superuser_org_query_param = "organization";
  superuser_org_scope_field = "organization_id";
  superuser_org_scope_model = none;
  superuser_org_blank_is_absent = false;
  superuser_org_invalid_message = "Must be an integer organization id.";
  superuser_org_forbidden_message =
      "Only superusers can access another organization's configuration.";
  superuser_org_ordering = "id" ∷ [];
  superuser_org_extra_filter = ("is_deleted", flag false) ∷ [];
}

-- What a view reads of another organization: the arguments of `filter` and of `order_by`.
pub record Query : Type 0 where
  pub model : String
  pub filters : Dict Scalar
  pub order_by : List String

-- A view's queryset: that of the next class, that of the envoy scope, or another organization's.
pub data Queryset : Type 0 where
  next_queryset : Queryset
  envoy_scoped : String → Queryset
  across : Query → Queryset

module _ (o : OrgScope) where
  abbrev pub gated : Bool → ℤ → Result ViewError (Option ℤ)
  gated true organization_id = ok (some organization_id)
  gated false organization_id = err (permission_denied o.superuser_org_forbidden_message)

  -- The parameter is read before the gate.
  abbrev pub target_of : Bool → Option String → Result ViewError (Option ℤ)
  target_of superuser none = ok none
  target_of superuser (some raw) =
      if o.superuser_org_blank_is_absent && str_eq raw ""
      then ok none
      else or_raise (validation_error o.superuser_org_query_param o.superuser_org_invalid_message)
          (parse_int raw)
        >>= gated superuser

  unfoldable pub superuser_target_organization_id : Option Request → Result ViewError (Option ℤ)
  superuser_target_organization_id none = ok none
  superuser_target_organization_id (some request) =
      target_of (is_superuser request) (request.query_params o.superuser_org_query_param)

  -- The models of the view's two querysets and of its serializer class stand in for the knob.
  unfoldable pub superuser_org_model :
      Option String → Option String → Option String → Result ViewError String
  superuser_org_model model_queryset queryset serializer =
      or_raise
        (runtime_error "SuperuserOrgScopeMixin requires 'superuser_org_scope_model' to be set.")
        (or_else o.superuser_org_scope_model (or_else model_queryset (or_else queryset serializer)))

  unfoldable pub superuser_org_queryset : String → ℤ → Query
  superuser_org_queryset model organization_id = record {
    model = model;
    filters =
        Dict.update ((o.superuser_org_scope_field, number organization_id) ∷ [])
          o.superuser_org_extra_filter;
    order_by = o.superuser_org_ordering;
  }

  abbrev pub queryset_for :
      Result ViewError String → Queryset → Option ℤ → Result ViewError Queryset
  queryset_for model next none = ok next
  queryset_for model next (some organization_id) =
      model >>= λ name. ok (across (superuser_org_queryset name organization_id))

  -- `get_queryset`, over the model that `superuser_org_model` finds.
  unfoldable pub get_queryset : Option Request → Result ViewError String → Result ViewError Queryset
  get_queryset request model =
      superuser_target_organization_id request >>= queryset_for model next_queryset

  abbrev pub scoped_for : Result ViewError String → Option ℤ → Result ViewError Queryset
  scoped_for model none = model >>= λ name. ok (envoy_scoped name)
  scoped_for model (some organization_id) =
      model >>= λ name. ok (across (superuser_org_queryset name organization_id))

  unfoldable pub get_org_scoped_queryset :
      Option Request → Result ViewError String → Result ViewError Queryset
  get_org_scoped_queryset request model =
      superuser_target_organization_id request >>= scoped_for model

  abbrev pub write_for : Result ViewError Write → Option ℤ → Result ViewError Write
  write_for next none = next
  write_for next (some organization_id) =
      ok (saved ((o.superuser_org_scope_field, organization_id) ∷ []))

  -- `perform_create`, and `perform_update` in the same words; `next` is what the next class does.
  unfoldable pub perform_write : Option Request → Result ViewError Write → Result ViewError Write
  perform_write request next = superuser_target_organization_id request >>= write_for next
