-- ===== src/Django/Views/Lists/Confined.antt =====
-- views.py: the lists that a tenant creates and updates.
use netix_backend.Prelude.{
  ℕ, ◌≡◌, refl, sym, ap, ◌∙◌, ok_inj, Bool, false, Option, none, some, Result, ok, err, ◌>>=◌, [],
  ◌∷◌,
}
use netix_backend.Prelude.Int.{ℤ}
use netix_backend.Django.Views.Identity.{ViewError, Request}
use netix_backend.Django.Views.WriteScope.{
  View, Write, saved, WriteData, many, one, perform_create, perform_update,
}
use netix_backend.Django.Views.Confined.{IsPinned, create_saves_tenant, update_saves_tenant}
use netix_backend.Django.Views.Lists.{Framework, Instance, Done, done, create, update, save_valid}

abbrev pub is_stale : Option Instance → Bool
is_stale none = false
is_stale (some row) = row.prefetched

-- What goes through made the write that was expected of it.
by_steps :
    (status : ℕ) (row : Option Instance) (valid : Result ViewError (Unit {0}))
    (write : Result ViewError Write) (expected : Write)
    → ((w : Write) → write ≡ ok w → w ≡ expected)
    → (d : Done) → (valid >>= λ _. write >>= done status row) ≡ ok d
    → d ≡ record { status = status; write = expected; instance' = row }
by_steps status row (err e) write expected only d h = absurd (cc)
by_steps status row (ok u) (err e) expected only d h = absurd (cc)
by_steps status row (ok u) (ok w) expected only d h =
    sym (ok_inj h) ∙ ap (λ w. record { status = status; write = w; instance' = row }) (only w refl)

module _ (f : Framework) (v : View) (q : Request) (organization_id : ℤ)
    (pinned : (row : Option Instance) (data' : WriteData) (partial : Bool)
      → IsPinned v (f.get_serializer row data' partial) q organization_id) where
  abbrev own : Write
  own = saved ((v.tenant_write_scope_field, organization_id) ∷ [])

  -- A pinned tenant's create that goes through, of one record or of a list, is answered 201 and
  -- saved with the tenant's own organization.
  pub create_confined :
      (data' : WriteData) (d : Done)
      → create f v data' ≡ ok d
      → d ≡ record { status = 201; write = own; instance' = none }
  unfolding create
  create_confined data' d h =
      let s = f.get_serializer none data' false in
      by_steps 201 none (f.is_valid s) (perform_create v s) own
        (create_saves_tenant v s q organization_id (pinned none data' false)) d h

  save_valid_confined :
      (row read : Option Instance) (data' : WriteData) (partial : Bool) (d : Done)
      → save_valid f v row (f.get_serializer read data' partial) ≡ ok d
      → d ≡ record { status = 200; write = own; instance' = row }
  unfolding save_valid
  save_valid_confined row read data' partial d h =
      let s = f.get_serializer read data' partial in
      by_steps 200 row (f.is_valid s) (perform_update v s) own
        (update_saves_tenant v s q organization_id (pinned read data' partial)) d h

  -- A pinned tenant's update that goes through, of one row or of a list, is answered 200 and saved
  -- with the tenant's own organization, and the row that it read, where it read one, has no
  -- prefetch cache left.
  pub update_confined :
      (partial : Bool) (data' : WriteData) (d : Done)
      → update f v partial data' ≡ ok d
      → (d.status ≡ 200) × (d.write ≡ own) × (is_stale d.instance' ≡ false)
  unfolding update
  update_confined partial (many rows) d h =
      let e = save_valid_confined none none (many rows) false d h in
      (ap (λ d. d.status) e, ap (λ d. d.write) e, ap (λ d. is_stale d.instance') e)
  update_confined partial (one row) d h = by_object f.get_object h
    where
      by_object :
          (object : Result ViewError Instance)
          → (object >>= λ found.
              save_valid f v
                (some record found { prefetched = false })
                (f.get_serializer (some found) (one row) partial))
            ≡ ok d
          → (d.status ≡ 200) × (d.write ≡ own) × (is_stale d.instance' ≡ false)
      by_object (err e) h = absurd (cc)
      by_object (ok found) h =
          let e =
            save_valid_confined (some record found { prefetched = false }) (some found) (one row)
              partial d h in
          (ap (λ d. d.status) e, ap (λ d. d.write) e, ap (λ d. is_stale d.instance') e)
