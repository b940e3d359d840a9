-- ===== src/Django/Views/Sample.antt =====
-- A tenant, a view and a serializer that the tests share.
use netix_backend.Text.Digits.{digit_char, show_before, digits_before}
use netix_backend.Text.Show.{show_int}
use netix_backend.Prelude.Dict
use netix_backend.Prelude.{◌≡◌, ok, refl, false, [], ◌∷◌, none, some, str_eq}
use netix_backend.Prelude.Int.{pos}
use netix_backend.Text.{strip, lower, translate}
use netix_backend.Django.Views.Identity.{
  number, text, Request, is_superuser, tenant_organization_id,
}
use netix_backend.Django.Views.Columns.{model_has_field, first_segment, without_id}
use netix_backend.Django.Views.WriteScope.{
  perform_create, perform_update, reject_foreign_instance, tenant_save_kwargs, view_organization_id,
  reject_foreign_body, saved, View, Serializer, pin_and_reject, serializer_model,
}
use netix_backend.Django.Views.Confined.{IsPinned}

-- The readers of a request, opened.
identity : Unit {0}
unfolding is_superuser tenant_organization_id lower strip translate serializer_model model_has_field
    first_segment without_id
identity = tt

-- A tenant of organization 4, asking for organization 9 in the query.
abbrev pub tenant : Request
tenant = record {
  method = "POST";
  envoy = some (record { is_superuser = text "False"; organization = number (pos 4) });
  user = none;
  query_params = λ name. some "9";
}

abbrev pub view : View
view = record {
  tenant_write_scope = pin_and_reject;
  tenant_write_scope_field = "organization_id";
  tenant_write_exempt_actions = "upload" ∷ [];
  tenant_write_pin_before_validation = false;
  action = some "create";
  request = some tenant;
}

-- A model that spells the column as a foreign key.
abbrev pub serializer : Serializer
serializer = record {
  child = none;
  own = record { meta_model = some (some (λ name. str_eq name "organization")); model = none };
  validated_data = (("organization_id", text "4") ∷ []) ∷ [];
  instance_owner = some (number (pos 4));
}

pub tenant-IsPinned : IsPinned view serializer tenant (pos 4)
unfolding identity
tenant-IsPinned = record {
  bound = refl;
  switched_on = λ h. absurd (cc);
  not_exempt = refl;
  tenant = refl;
  column = refl;
}

-- The same tenant, with nothing in the query.
abbrev pub plain_tenant : Request
plain_tenant = record tenant { query_params = λ name. none }

abbrev pub plain_view : View
plain_view = record view { request = some plain_tenant }

pub plain_tenant-IsPinned : IsPinned plain_view serializer plain_tenant (pos 4)
unfolding identity
plain_tenant-IsPinned = record {
  bound = refl;
  switched_on = λ h. absurd (cc);
  not_exempt = refl;
  tenant = refl;
  column = refl;
}

pub plain_create :
    perform_create plain_view serializer ≡ ok (saved (("organization_id", pos 4) ∷ []))
unfolding identity perform_create tenant_save_kwargs view_organization_id reject_foreign_body
    show_int Dict.get show_before digits_before digit_char
plain_create = refl

pub plain_update :
    perform_update plain_view serializer ≡ ok (saved (("organization_id", pos 4) ∷ []))
unfolding identity perform_update tenant_save_kwargs view_organization_id reject_foreign_body
    reject_foreign_instance show_int Dict.get show_before digits_before digit_char
plain_update = refl
