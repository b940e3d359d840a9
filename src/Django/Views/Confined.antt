-- ===== src/Django/Views/Confined.antt =====
-- What a tenant's write is saved with.
use netix_backend.Prelude.{
  sym, ◌≡◌, ◌≢◌, ◌↔◌, refl, ◌∙◌, true, false, List, [], ◌∷◌, All, Option, some, String, Result, ok,
  err, ◌>>=◌, arith,
}
use netix_backend.Prelude.Int.{ℤ}
use netix_backend.Prelude.Dict
use netix_backend.Prelude.Dict.{Dict}
use netix_backend.Django.Views.Identity.{
  Scalar, ViewError, Request, tenant_organization_id, action_in,
}
use netix_backend.Django.Views.WriteScope.{
  View, Serializer, Write, saved, ScopeMode, off, pin, pin_and_reject, has_column, serializer_model,
  perform_create, perform_update, tenant_save_kwargs, view_organization_id, tenant_in_mode,
  is_foreign, reject_foreign_body, reject_foreign_instance, create_check, update_check,
}

-- The writes that a tenant of an organization is pinned in.
pub record IsPinned (v : View) (s : Serializer) (q : Request) (organization_id : ℤ) : Type 0 where
  pub bound : v.request ≡ some q
  pub switched_on : v.tenant_write_scope ≢ off
  pub not_exempt : action_in v.tenant_write_exempt_actions v.action ≡ false
  pub tenant : tenant_organization_id q ≡ ok (some organization_id)
  pub column : has_column (serializer_model s) v.tenant_write_scope_field ≡ true

tenant_when_on :
    (m : ScopeMode) (q : Request)
    → m ≢ off
    → tenant_in_mode m false (some q) ≡ tenant_organization_id q
tenant_when_on off q h = absurd (h refl)
tenant_when_on pin q h = refl
tenant_when_on pin_and_reject q h = refl

-- The rows of a body that name another organization.
abbrev pub NamesNoOther : String → ℤ → List (Dict Scalar) → Type 0
NamesNoOther field organization_id rows =
    All (λ row. is_foreign organization_id (Dict.get row field) ≡ false) rows

reject_foreign_body-ok :
    (field : String) (n : ℤ) (rows : List (Dict Scalar))
    → (reject_foreign_body field n rows ≡ ok tt) ↔ NamesNoOther field n rows
unfolding reject_foreign_body
reject_foreign_body-ok field n [] = ground arith
reject_foreign_body-ok field n (row ∷ rows) = ground (arith, reject_foreign_body-ok field n rows)

both_ok :
    (field : String) (n : ℤ) (rows : List (Dict Scalar)) (owner : Option Scalar)
    → ((reject_foreign_body field n rows >>= λ _. reject_foreign_instance n owner) ≡ ok tt)
      ↔ (NamesNoOther field n rows × (is_foreign n owner ≡ false))
unfolding reject_foreign_instance
both_ok field n rows owner =
    by_body (reject_foreign_body field n rows) (reject_foreign_body-ok field n rows)
  where
    by_body :
        {P : Type 0} (c : Result ViewError (Unit {0}))
        → (c ≡ ok tt) ↔ P
        → ((c >>= λ _. reject_foreign_instance n owner) ≡ ok tt)
          ↔ (P × (is_foreign n owner ≡ false))
    by_body (ok u) h = ground (arith, h.0 refl)
    by_body (err e) h = (λ x. absurd (cc), λ x. let e = h.1 x.0 in absurd (cc))

by_check : (c : Result ViewError (Unit {0})) {w u : Write} → (c >>= λ _. ok u) ≡ ok w → w ≡ u
by_check (ok x) h = cc
by_check (err e) h = absurd (cc)

ok_iff : (c : Result ViewError (Unit {0})) (w : Write) → ((c >>= λ _. ok w) ≡ ok w) ↔ (c ≡ ok tt)
ok_iff (ok u) w = (λ h. refl, λ h. refl)
ok_iff (err e) w = (λ h. absurd (cc), λ h. absurd (cc))

module _ (v : View) (s : Serializer) (q : Request) (organization_id : ℤ)
    (p : IsPinned v s q organization_id) where
  pinned_save_kwargs :
      tenant_save_kwargs v s ≡ ok ((v.tenant_write_scope_field, organization_id) ∷ [])
  unfolding tenant_save_kwargs view_organization_id
  pinned_save_kwargs = simp (
    p.not_exempt,
    p.bound,
    tenant_when_on v.tenant_write_scope q p.switched_on,
    p.tenant,
    p.column,
  )

  pinned_create : perform_create v s ≡ (
      create_check v.tenant_write_scope v.tenant_write_scope_field organization_id s >>= λ _.
      ok (saved ((v.tenant_write_scope_field, organization_id) ∷ [])))
  unfolding perform_create
  pinned_create = rw pinned_save_kwargs

  pinned_update : perform_update v s ≡ (
      update_check v.tenant_write_scope v.tenant_write_scope_field organization_id s >>= λ _.
      ok (saved ((v.tenant_write_scope_field, organization_id) ∷ [])))
  unfolding perform_update
  pinned_update = rw pinned_save_kwargs

  -- A create of a pinned tenant that goes through is saved with the tenant's own organization.
  pub create_saves_tenant :
      (w : Write)
      → perform_create v s ≡ ok w
      → w ≡ saved ((v.tenant_write_scope_field, organization_id) ∷ [])
  create_saves_tenant w h = by_check _ (sym pinned_create ∙ h)

  -- So is an update.
  pub update_saves_tenant :
      (w : Write)
      → perform_update v s ≡ ok w
      → w ≡ saved ((v.tenant_write_scope_field, organization_id) ∷ [])
  update_saves_tenant w h = by_check _ (sym pinned_update ∙ h)

  -- Where foreign bodies are rejected, a create goes through exactly if no row names another
  -- organization, and is then saved with the tenant's own.
  pub create_rejects_foreign :
      v.tenant_write_scope ≡ pin_and_reject
      → (perform_create v s ≡ ok (saved ((v.tenant_write_scope_field, organization_id) ∷ [])))
        ↔ NamesNoOther v.tenant_write_scope_field organization_id s.validated_data
  create_rejects_foreign h =
      let (to, from) =
        ok_iff (reject_foreign_body v.tenant_write_scope_field organization_id s.validated_data)
          (saved ((v.tenant_write_scope_field, organization_id) ∷ [])) in
      let (all, back) =
        reject_foreign_body-ok v.tenant_write_scope_field organization_id s.validated_data in
      rw pinned_create (rw h (λ e. all (to e), λ c. from (back c)))

  -- Where foreign bodies are rejected, an update of a pinned tenant goes through, saved with the
  -- tenant's own organization, exactly if no row of the body names another organization and the row
  -- that is updated is the tenant's own or nobody's.
  pub update_rejects_foreign :
      v.tenant_write_scope ≡ pin_and_reject
      → (perform_update v s ≡ ok (saved ((v.tenant_write_scope_field, organization_id) ∷ []))) ↔ (
          NamesNoOther v.tenant_write_scope_field organization_id s.validated_data
          × (is_foreign organization_id s.instance_owner ≡ false))
  update_rejects_foreign h =
      let check =
        reject_foreign_body v.tenant_write_scope_field organization_id s.validated_data >>= λ _.
        reject_foreign_instance organization_id s.instance_owner in
      let (to, from) = ok_iff check (saved ((v.tenant_write_scope_field, organization_id) ∷ [])) in
      let (all, back) =
        both_ok v.tenant_write_scope_field organization_id s.validated_data s.instance_owner in
      rw pinned_update (rw h (λ e. all (to e), λ c. from (back c)))
