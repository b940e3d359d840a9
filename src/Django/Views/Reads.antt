-- ===== src/Django/Views/Reads.antt =====
-- The read side of views.py: the arguments of the envoy scope, and `?include_deleted`.
use netix_backend.Prelude.{
  Bool, true, false, not, ◌&&◌, List, [], ◌∷◌, Option, none, some, String, str_eq, if◌then◌else◌,
  contains,
}
use netix_backend.Text.{strip, lower}
use netix_backend.Django.Views.Identity.{Request, action_in}
use netix_backend.Django.Views.Columns.{Meta, model_has_field}
use netix_backend.Django.Views.WriteScope.{or_else}

-- The class attributes that the scope reads, and the `SESSION_CUSTOMER_FILTER` setting.
pub record ReadView : Type 0 where
  pub organization_field : String
  pub session_customer_filter : Option Bool
  pub organization_field_optional : Bool
  pub setting : Option Bool
  pub include_deleted_actions : List String
  pub include_deleted_live_first : Bool
  pub has_scope_queryset : Bool
  pub action : Option String
  pub request : Option Request

-- What envoy_pyauth's filters are called with; `include_shared` is `none` where it is not passed.
pub record ScopeKwargs : Type 0 where
  pub request : Option Request
  pub session_customer_filter : Bool
  pub field_name : String
  pub delete_filter : Bool
  pub include_shared : Option Bool

abbrev pub or_true : Option Bool → Bool
or_true none = true
or_true (some b) = b

abbrev pub or_text : Option String → String → String
or_text none default = default
or_text (some s) default = if str_eq s "" then default else s

-- `model` is `none` where no model is given; a model without the column is left unscoped on request.
abbrev pub scoped_if_column : Bool → Bool → Option Meta → String → Bool
scoped_if_column value optional none field = value
scoped_if_column true true (some model) field = model_has_field model field
scoped_if_column value optional (some model) field = value

unfoldable pub resolve_session_customer_filter : ReadView → Option Meta → Option String → Bool
resolve_session_customer_filter v model field_name =
    scoped_if_column (or_true (or_else v.session_customer_filter v.setting))
      v.organization_field_optional model (or_text field_name v.organization_field)

-- `accepts_include_shared` is whether the installed envoy_pyauth has the parameter.
unfoldable pub scope_call_kwargs :
    Bool → ReadView → Option Meta → Option String → Bool → Option Bool → ScopeKwargs
scope_call_kwargs accepts_include_shared v model field_name delete_filter include_shared =
    let field = or_text field_name v.organization_field in
    record {
      request = v.request;
      session_customer_filter = resolve_session_customer_filter v model (some field);
      field_name = field;
      delete_filter = delete_filter;
      include_shared = if accepts_include_shared then include_shared else none;
    }

abbrev pub deleted_values : List String
deleted_values = "1" ∷ "true" ∷ "yes" ∷ "on" ∷ []

abbrev pub asks_deleted : Option String → Bool
asks_deleted none = false
asks_deleted (some raw) = contains deleted_values (lower (strip raw))

abbrev pub asked_by : Option Request → Bool
asked_by none = false
asked_by (some request) = asks_deleted (request.query_params "include_deleted")

unfoldable pub include_deleted_requested : ReadView → Bool
include_deleted_requested v = action_in v.include_deleted_actions v.action && asked_by v.request

-- The arguments that `IncludeDeletedMixin` passes on, where it stands above the scope.
unfoldable pub include_deleted_kwargs :
    Bool → ReadView → Option Meta → Option String → Bool → Option Bool → ScopeKwargs
include_deleted_kwargs accepts_include_shared v model field_name delete_filter include_shared =
    scope_call_kwargs accepts_include_shared v model field_name
      (delete_filter && not (include_deleted_requested v)) include_shared

-- A view's queryset: that of the next class, an empty one, or a queryset in or out of the scope.
pub data ReadQueryset : Type 0 where
  next_queryset none_queryset include_deleted_all : ReadQueryset
  scoped : ScopeKwargs → ReadQueryset

-- `get_queryset` of the scope; `model_queryset` is the model of the declared queryset.
abbrev pub declared_queryset : Bool → ReadView → Option Meta → Option Request → ReadQueryset
declared_queryset accepts_include_shared v model none = none_queryset
declared_queryset accepts_include_shared v model (some request) =
    scoped (scope_call_kwargs accepts_include_shared v model none true none)

unfoldable pub get_queryset : Bool → ReadView → Option Meta → ReadQueryset
get_queryset accepts_include_shared v none = next_queryset
get_queryset accepts_include_shared v (some model_queryset) =
    declared_queryset accepts_include_shared v (some model_queryset) v.request

abbrev pub deleted_queryset : Bool → ReadView → Meta → Bool → ReadQueryset
deleted_queryset accepts_include_shared v model false = include_deleted_all
deleted_queryset accepts_include_shared v model true =
    scoped (scope_call_kwargs accepts_include_shared v (some model) none false none)

-- `IncludeDeletedMixin.get_queryset`; `next` is the next class's.
unfoldable pub include_deleted_get_queryset :
    Bool → ReadView → Option Meta → ReadQueryset → ReadQueryset
include_deleted_get_queryset accepts_include_shared v none next = next
include_deleted_get_queryset accepts_include_shared v (some include_deleted_queryset) next =
    if include_deleted_requested v
    then deleted_queryset accepts_include_shared v include_deleted_queryset v.has_scope_queryset
    else next

abbrev pub or_id : List String → List String
or_id [] = "id" ∷ []
or_id (field ∷ fields) = field ∷ fields

-- The ordering after `filter_queryset`, from the ordering that the query has.
unfoldable pub include_deleted_ordering : ReadView → List String → List String
include_deleted_ordering v order_by =
    if v.include_deleted_live_first && include_deleted_requested v
    then "is_deleted" ∷ or_id order_by
    else order_by
