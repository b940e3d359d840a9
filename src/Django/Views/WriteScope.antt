-- ===== src/Django/Views/WriteScope.antt =====
-- `TenantWriteScopeMixin`: the organization that a write is pinned to.
use netix_backend.Prelude.{
  Bool, true, false, not, List, Option, none, some, String, str_eq, if◌then◌else◌, Result, ok, err,
  ◌>>=◌, [], ◌∷◌,
}
use netix_backend.Prelude.Int.{ℤ}
use netix_backend.Prelude.Dict
use netix_backend.Prelude.Dict.{Dict}
use netix_backend.Text.Show.{show_int}
use netix_backend.Django.Views.Identity.{
  Scalar, null, number, str, ViewError, permission_denied, Request, tenant_organization_id,
  action_in,
}
use netix_backend.Django.Views.Columns.{Meta, model_has_field}

-- A serializer, or its child where it has one: the two places that name its model.
pub record Target : Type 0 where
  pub meta_model : Option Meta
  pub model : Option Meta

-- `validated_data`, one body or a list of them, and the instance's value of the scope field.
pub record Serializer : Type 0 where
  pub child : Option Target
  pub own : Target
  pub validated_data : List (Dict Scalar)
  pub instance_owner : Option Scalar

abbrev pub or_else {ℓ} : {A : Type ℓ} → Option A → Option A → Option A
or_else none b = b
or_else (some a) b = some a

abbrev pub target_model : Target → Option Meta
target_model target = or_else target.meta_model target.model

unfoldable pub serializer_model : Serializer → Option Meta
serializer_model s = elim s.child [ none ↦ target_model s.own | some child ↦ target_model child ]

pub data ScopeMode : Type 0 where
  off pin pin_and_reject : ScopeMode

-- A view's class attributes, with the action and the request that are bound to it.
pub record View : Type 0 where
  pub tenant_write_scope : ScopeMode
  pub tenant_write_scope_field : String
  pub tenant_write_exempt_actions : List String
  pub tenant_write_pin_before_validation : Bool
  pub action : Option String
  pub request : Option Request

-- What a write does: the call of the next class, or `serializer.save` with these arguments.
pub data Write : Type 0 where
  inherited : Write
  saved : Dict ℤ → Write

abbrev pub request_tenant : Option Request → Result ViewError (Option ℤ)
request_tenant none = ok none
request_tenant (some request) = tenant_organization_id request

abbrev pub tenant_unless_exempt : Bool → Option Request → Result ViewError (Option ℤ)
tenant_unless_exempt true request = ok none
tenant_unless_exempt false request = request_tenant request

abbrev pub tenant_in_mode : ScopeMode → Bool → Option Request → Result ViewError (Option ℤ)
tenant_in_mode off exempt request = ok none
tenant_in_mode _ exempt request = tenant_unless_exempt exempt request

unfoldable pub view_organization_id : View → Result ViewError (Option ℤ)
view_organization_id v =
    tenant_in_mode v.tenant_write_scope (action_in v.tenant_write_exempt_actions v.action) v.request

abbrev pub has_column : Option Meta → String → Bool
has_column none field = false
has_column (some model) field = model_has_field model field

abbrev pub pinned_kwargs : String → Bool → Option ℤ → Dict ℤ
pinned_kwargs field column none = []
pinned_kwargs field true (some organization_id) = (field, organization_id) ∷ []
pinned_kwargs field false (some organization_id) = []

unfoldable pub tenant_save_kwargs : View → Serializer → Result ViewError (Dict ℤ)
tenant_save_kwargs v s = view_organization_id v >>= λ organization_id. ok (
    pinned_kwargs v.tenant_write_scope_field
      (has_column (serializer_model s) v.tenant_write_scope_field) organization_id)

-- A value that is missing or None passes.
abbrev pub is_foreign : ℤ → Option Scalar → Bool
is_foreign organization_id none = false
is_foreign organization_id (some null) = false
is_foreign organization_id (some owner) = not (str_eq (str owner) (show_int organization_id))

abbrev pub foreign_body : ViewError
foreign_body = permission_denied "Cannot write records for another organization."

abbrev pub foreign_instance : ViewError
foreign_instance =
    permission_denied "Tenant identities may only modify their organization's records."

unfoldable pub reject_foreign_body : String → ℤ → List (Dict Scalar) → Result ViewError (Unit {0})
reject_foreign_body field organization_id [] = ok tt
reject_foreign_body field organization_id (row ∷ rows) =
    let rest = reject_foreign_body field organization_id rows in
    if is_foreign organization_id (Dict.get row field) then err foreign_body else rest

unfoldable pub reject_foreign_instance : ℤ → Option Scalar → Result ViewError (Unit {0})
reject_foreign_instance organization_id owner =
    if is_foreign organization_id owner then err foreign_instance else ok tt

-- The rejections of a create, and of an update.
abbrev pub create_check : ScopeMode → String → ℤ → Serializer → Result ViewError (Unit {0})
create_check pin_and_reject field organization_id s =
    reject_foreign_body field organization_id s.validated_data
create_check _ field organization_id s = ok tt

abbrev pub update_check : ScopeMode → String → ℤ → Serializer → Result ViewError (Unit {0})
update_check pin_and_reject field organization_id s =
    reject_foreign_body field organization_id s.validated_data >>= λ _.
    reject_foreign_instance organization_id s.instance_owner
update_check _ field organization_id s = ok tt

abbrev pub save_pinned : (ℤ → Result ViewError (Unit {0})) → Dict ℤ → Result ViewError Write
save_pinned check [] = ok inherited
save_pinned check ((field, organization_id) ∷ kwargs) =
    check organization_id >>= λ _. ok (saved ((field, organization_id) ∷ kwargs))

unfoldable pub perform_create : View → Serializer → Result ViewError Write
perform_create v s = tenant_save_kwargs v s >>= λ kwargs.
    save_pinned (λ n. create_check v.tenant_write_scope v.tenant_write_scope_field n s) kwargs

unfoldable pub perform_update : View → Serializer → Result ViewError Write
perform_update v s = tenant_save_kwargs v s >>= λ kwargs.
    save_pinned (λ n. update_check v.tenant_write_scope v.tenant_write_scope_field n s) kwargs

-- A request's data: a list, which is left as it is, or one mapping.
pub data WriteData : Type 0 where
  many : List (Dict Scalar) → WriteData
  one : Dict Scalar → WriteData

abbrev pub pinned_to : String → Bool → Option ℤ → WriteData → WriteData
pinned_to field true (some organization_id) (one data') =
    one (Dict.set data' field (number organization_id))
pinned_to field column organization_id data' = data'

-- `model` is that of the view's serializer class.
unfoldable pub pinned_write_data : View → Option Meta → WriteData → Result ViewError WriteData
pinned_write_data v model data' = view_organization_id v >>= λ organization_id. ok (
    pinned_to v.tenant_write_scope_field (has_column model v.tenant_write_scope_field)
      organization_id data')

-- The data that `get_serializer` hands on; `none` is no data.
unfoldable pub get_serializer_data :
    View → Option Meta → Option WriteData → Result ViewError (Option WriteData)
get_serializer_data v model none = ok none
get_serializer_data v model (some data') =
    if v.tenant_write_pin_before_validation
    then (pinned_write_data v model data' >>= λ pinned. ok (some pinned))
    else ok (some data')
