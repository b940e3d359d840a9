-- ===== src/Django/Views/Tests.antt =====
-- Writes of concrete tenants.
use netix_backend.Prelude.{◌≡◌, ◌↔◌, refl, true, false, [], ◌∷◌, some, ok}
use netix_backend.Prelude.Int.{pos}
use netix_backend.Django.Views.Identity.{number, text}
use netix_backend.Django.Views.WriteScope.{one, saved, perform_update, is_foreign}
use netix_backend.Django.Views.Confined.{update_rejects_foreign, NamesNoOther}
use netix_backend.Django.Views.Lists.{Framework, Instance, Done, update, save_valid}
use netix_backend.Django.Views.Lists.Confined.{is_stale, update_confined}
use netix_backend.Django.Views.Sample.{
  tenant, view, serializer, tenant-IsPinned, plain_tenant, plain_view, plain_tenant-IsPinned,
  plain_update,
}

update_rejects_foreign_example :
    (perform_update view serializer ≡ ok (saved (("organization_id", pos 4) ∷ []))) ↔ (
      NamesNoOther "organization_id" (pos 4) ((("organization_id", text "4") ∷ []) ∷ [])
      × (is_foreign (pos 4) (some (number (pos 4))) ≡ false))
update_rejects_foreign_example =
    update_rejects_foreign view serializer tenant (pos 4) tenant-IsPinned refl

abbrev prefetched_row : Instance
prefetched_row = record { owner = some (number (pos 4)); prefetched = true }

-- The framework gives the sample's serializer for every body.
abbrev framework : Framework
framework = record {
  get_serializer = λ row body partial. serializer;
  is_valid = λ s. ok tt;
  get_object = ok prefetched_row;
}

abbrev updated : Done
updated = record {
  status = 200;
  write = saved (("organization_id", pos 4) ∷ []);
  instance' = some (record prefetched_row { prefetched = false });
}

updates : update framework plain_view false (one []) ≡ ok updated
unfolding update save_valid
updates = rw plain_update refl

update_confined_example :
    (updated.status ≡ 200)
    × (updated.write ≡ saved (("organization_id", pos 4) ∷ []))
    × (is_stale updated.instance' ≡ false)
update_confined_example =
    update_confined framework plain_view plain_tenant (pos 4)
      (λ row body partial. plain_tenant-IsPinned) false (one []) updated updates
