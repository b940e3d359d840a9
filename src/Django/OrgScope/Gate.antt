-- ===== src/Django/OrgScope/Gate.antt =====
-- Who reaches another organization, and what a tenant's write is confined to.
use netix_backend.Prelude.{
  ◌≡◌, ◌≢◌, ◌⊎◌, inl, inr, refl, ◌∙◌, Bool, true, false, ◌&&◌, [], ◌∷◌, Option, none, some, String,
  str_eq, if◌then◌else◌, Result, ok, err, or_raise, ◌>>=◌, arith, str_eq_of_ne, eq_refl,
}
use netix_backend.Prelude.Int.{ℤ}
use netix_backend.Prelude.Dict
use netix_backend.Prelude.Dict.{Dict, get-update}
use netix_backend.Text.Digits.{parse_int}
use netix_backend.Django.Views.Identity.{
  number, ViewError, validation_error, Request, Envoy, is_superuser, tenant_organization_id,
  tenant_of,
}
use netix_backend.Django.Views.WriteScope.{
  View, Serializer, Write, saved, perform_create, perform_update,
}
use netix_backend.Django.Views.Confined.{IsPinned, create_saves_tenant, update_saves_tenant}
use netix_backend.Django.OrgScope.{
  OrgScope, target_of, gated, superuser_target_organization_id, superuser_org_queryset, write_for,
  perform_write,
}

target_of-gate :
    (o : OrgScope) (b : Bool) (raw : Option String) (n : ℤ)
    → target_of o b raw ≡ ok (some n)
    → (b ≡ true) × (s : String) × (raw ≡ some s) × (parse_int s ≡ some n)
target_of-gate o b none n h = absurd (cc)
target_of-gate o b (some s) n h =
    let (superuser, read) =
      by_blank (o.superuser_org_blank_is_absent && str_eq s "") b (parse_int s) h in
    (superuser, s, refl, read)
  where
    by_blank :
        (absent b : Bool) (read : Option ℤ)
        → (if absent
            then ok none
            else or_raise
                (validation_error o.superuser_org_query_param o.superuser_org_invalid_message)
                read
              >>= gated o b)
          ≡ ok (some n)
        → (b ≡ true) × (read ≡ some n)
    by_blank true b read h = absurd (cc)
    by_blank false b none h = absurd (cc)
    by_blank false false (some m) h = absurd (cc)
    by_blank false true (some m) h = (refl, cc)

-- Only a superuser gets a target in another organization, and it is the integer in the parameter.
pub target_needs_superuser :
    (o : OrgScope) (q : Request) (n : ℤ)
    → superuser_target_organization_id o (some q) ≡ ok (some n)
    → (is_superuser q ≡ true)
      × (raw : String) × (q.query_params o.superuser_org_query_param ≡ some raw)
      × (parse_int raw ≡ some n)
unfolding superuser_target_organization_id
target_needs_superuser o q n h = target_of-gate o (is_superuser q) _ n h

-- A parameter that is no integer is answered with a 400, whoever asks.
pub invalid_target :
    (o : OrgScope) (q : Request) (raw : String)
    → q.query_params o.superuser_org_query_param ≡ some raw
    → parse_int raw ≡ none
    → (raw ≢ "") ⊎ (o.superuser_org_blank_is_absent ≡ false)
    → superuser_target_organization_id o (some q)
      ≡ err (validation_error o.superuser_org_query_param o.superuser_org_invalid_message)
unfolding superuser_target_organization_id
invalid_target o q raw present bad h =
    rw present (rw (not_absent o.superuser_org_blank_is_absent h) (rw bad))
  where
    not_absent : (b : Bool) → (raw ≢ "") ⊎ (b ≡ false) → (b && str_eq raw "") ≡ false
    not_absent b (inl stated) = ground (arith, str_eq_of_ne raw "" stated)
    not_absent b (inr kept) = ground arith

tenant_of-superuser :
    (b : Bool) (envoy : Option Envoy) (n : ℤ) → tenant_of b envoy ≡ ok (some n) → b ≡ false
tenant_of-superuser b none n h = absurd (cc)
tenant_of-superuser true (some envoy) n h = absurd (cc)
tenant_of-superuser false (some envoy) n h = refl

-- A tenant's request never has a target in another organization.
tenant-no_target :
    (o : OrgScope) (q : Request) (n : ℤ) (m : ℤ)
    → tenant_organization_id q ≡ ok (some n)
    → superuser_target_organization_id o (some q) ≢ ok (some m)
unfolding tenant_organization_id
tenant-no_target o q n m tenant e =
    let plain = tenant_of-superuser (is_superuser q) q.envoy n tenant in
    let super = (target_needs_superuser o q m e).0 in absurd (cc)

write_for-next :
    {w : Write} (o : OrgScope) (r : Result ViewError (Option ℤ)) (next : Result ViewError Write)
    → ((m : ℤ) → r ≢ ok (some m))
    → (r >>= write_for o next) ≡ ok w
    → next ≡ ok w
write_for-next o (ok none) next h e = e
write_for-next o (ok (some m)) next h e = absurd (h m refl)
write_for-next o (err x) next h e = absurd (cc)

module _ (o : OrgScope) (v : View) (s : Serializer) (q : Request) (organization_id : ℤ)
    (p : IsPinned v s q organization_id) where
  -- With the cross-organization mixin above the tenant's pinning, a tenant's create that goes
  -- through is saved with the tenant's own organization, whatever the query names.
  pub tenant_create_confined :
      (w : Write)
      → perform_write o v.request (perform_create v s) ≡ ok w
      → w ≡ saved ((v.tenant_write_scope_field, organization_id) ∷ [])
  unfolding perform_write
  tenant_create_confined w h = create_saves_tenant v s q organization_id p w (
      write_for-next o (superuser_target_organization_id o v.request) (perform_create v s) no_target
        h)
    where
      no_target : (m : ℤ) → superuser_target_organization_id o v.request ≢ ok (some m)
      no_target m = rw p.bound (tenant-no_target o q organization_id m p.tenant)

  -- So is a tenant's update.
  pub tenant_update_confined :
      (w : Write)
      → perform_write o v.request (perform_update v s) ≡ ok w
      → w ≡ saved ((v.tenant_write_scope_field, organization_id) ∷ [])
  unfolding perform_write
  tenant_update_confined w h = update_saves_tenant v s q organization_id p w (
      write_for-next o (superuser_target_organization_id o v.request) (perform_update v s) no_target
        h)
    where
      no_target : (m : ℤ) → superuser_target_organization_id o v.request ≢ ok (some m)
      no_target m = rw p.bound (tenant-no_target o q organization_id m p.tenant)

-- A read of another organization is confined to its rows, unless the extra filter names the field.
pub superuser_org_queryset_confined :
    (o : OrgScope) (model : String) (n : ℤ)
    → Dict.get o.superuser_org_extra_filter o.superuser_org_scope_field ≡ none
    → Dict.get (superuser_org_queryset o model n).filters o.superuser_org_scope_field
      ≡ some (number n)
unfolding superuser_org_queryset Dict.get
superuser_org_queryset_confined o model n h =
    get-update ((o.superuser_org_scope_field, number n) ∷ []) o.superuser_org_extra_filter
      o.superuser_org_scope_field h
    ∙ ground (arith, eq_refl o.superuser_org_scope_field)
