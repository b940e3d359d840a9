-- ===== src/Django/OrgScope/Tests.antt =====
-- A tenant and a superuser that name another organization.
use netix_backend.Prelude.{◌≡◌, refl, [], ◌∷◌, some, ok}
use netix_backend.Prelude.Int.{pos}
use netix_backend.Text.{strip, lower, translate}
use netix_backend.Text.Digits.{parse_int, int_signed, int_digits, digit_value}
use netix_backend.Django.Views.Identity.{text, number, Request, is_superuser}
use netix_backend.Django.Views.WriteScope.{saved, inherited}
use netix_backend.Django.Views.Sample.{
  tenant, serializer, plain_tenant, plain_view, plain_tenant-IsPinned, plain_create,
}
use netix_backend.Django.OrgScope.{default_scope, superuser_target_organization_id, perform_write}
use netix_backend.Django.OrgScope.Gate.{tenant_create_confined}

-- The parameter's readers, opened.
scope : Unit {0}
unfolding superuser_target_organization_id is_superuser strip lower translate parse_int int_signed
    int_digits digit_value perform_write
scope = tt

abbrev superuser : Request
superuser = record tenant {
  envoy = some (record { is_superuser = text "TRUE"; organization = number (pos 4) });
}

abbrev lost : Request
lost = record tenant { query_params = λ name. some "nine" }

superuser_write :
    perform_write default_scope (some superuser) (ok inherited)
    ≡ ok (saved (("organization_id", pos 9) ∷ []))
unfolding scope
superuser_write = refl

nine : parse_int "9" ≡ some (pos 9)
unfolding scope
nine = refl

tenant_create_confined_example :
    saved (("organization_id", pos 4) ∷ []) ≡ saved (("organization_id", pos 4) ∷ [])
tenant_create_confined_example =
    tenant_create_confined default_scope plain_view serializer plain_tenant (pos 4)
      plain_tenant-IsPinned (saved (("organization_id", pos 4) ∷ [])) (unfold scope in plain_create)
