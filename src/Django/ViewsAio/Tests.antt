-- ===== src/Django/ViewsAio/Tests.antt =====
-- Async writes of a tenant that the write scope pins.
use netix_backend.Prelude.{◌≡◌, true}
use netix_backend.Django.Views.Sample.{plain_view, serializer}
use netix_backend.Django.ViewsAio.{
  tenant_scope, create_by, update_by, perform_acreate, perform_aupdate,
}
use netix_backend.Django.ViewsAio.Pinned.{saved_with, async_saved_with, async_writes-same}

async_writes-same_example :
    (async_saved_with (perform_acreate plain_view tenant_scope true serializer)
      ≡ saved_with (create_by tenant_scope plain_view serializer))
    × (async_saved_with (perform_aupdate plain_view tenant_scope true serializer)
        ≡ saved_with (update_by tenant_scope plain_view serializer))
async_writes-same_example =
    async_writes-same plain_view true serializer tenant_scope (λ h. absurd (cc))
