-- ===== src/Django/ViewsAio.antt =====
-- netix_backend/django/views_aio.py: the write hooks and the soft delete of the async viewsets.
pub mod Pinned
mod Tests
use netix_backend.Prelude.{Bool, true, false, List, [], ◌∷◌, if◌then◌else◌, Result, ok, err, ◌>>=◌}
use netix_backend.Prelude.Int.{ℤ}
use netix_backend.Prelude.Dict.{Dict}
use netix_backend.Django.Views.Identity.{ViewError}
use netix_backend.Django.Views.WriteScope.{
  View, Serializer, Write, inherited, saved, tenant_save_kwargs, perform_create, perform_update,
}
use netix_backend.Django.Views.SoftDelete.{
  SoftDelete, Row, Retired, Answer, answer_for, soft_delete_instance,
}

-- What a class's sync hook resolves to: DRF's own, that of the write scope, or an override.
pub data Hook : Type 0 where
  framework tenant_scope : Hook
  overridden : (View → Serializer → Result ViewError Write) → Hook

-- The baselines of a create are the first two hooks, and so are those of an update.
unfoldable pub has_sync_override : Hook → Bool
has_sync_override framework = false
has_sync_override tenant_scope = false
has_sync_override (overridden hook) = true

-- DRF's hook is `serializer.save()`.
unfoldable pub create_by : Hook → View → Serializer → Result ViewError Write
create_by framework v s = ok (saved [])
create_by tenant_scope v s = perform_create v s
create_by (overridden hook) v s = hook v s

unfoldable pub update_by : Hook → View → Serializer → Result ViewError Write
update_by framework v s = ok (saved [])
update_by tenant_scope v s = perform_update v s
update_by (overridden hook) v s = hook v s

-- How an async write went out: a sync hook in a thread, `asave`, or `save` in a thread.
pub data AsyncWrite : Type 0 where
  by_hook : Write → AsyncWrite
  by_asave by_save : AsyncWrite

unfoldable pub asave : (has_asave : Bool) → AsyncWrite
asave has_asave = if has_asave then by_asave else by_save

abbrev pub in_thread : Result ViewError Write → Result ViewError AsyncWrite
in_thread write = write >>= λ w. ok (by_hook w)

-- The write for the pinned arguments, with the sync hook's outcome.
abbrev pub by_kwargs : Dict ℤ → Bool → Result ViewError Write → Result ViewError AsyncWrite
by_kwargs [] has_asave write = ok (asave has_asave)
by_kwargs (pinned ∷ kwargs) has_asave write = in_thread write

unfoldable pub perform_acreate : View → Hook → Bool → Serializer → Result ViewError AsyncWrite
perform_acreate v hook has_asave s =
    if has_sync_override hook
    then in_thread (create_by hook v s)
    else (tenant_save_kwargs v s >>= λ kwargs. by_kwargs kwargs has_asave (create_by hook v s))

unfoldable pub perform_aupdate : View → Hook → Bool → Serializer → Result ViewError AsyncWrite
perform_aupdate v hook has_asave s =
    if has_sync_override hook
    then in_thread (update_by hook v s)
    else (tenant_save_kwargs v s >>= λ kwargs. by_kwargs kwargs has_asave (update_by hook v s))

-- One hop to a thread, in a transaction of its own.
unfoldable pub atomic_soft_delete : SoftDelete → Row → Result ViewError Retired
atomic_soft_delete d r = soft_delete_instance d r

-- `adestroy`, with what `aget_object` gives.
unfoldable pub adestroy : SoftDelete → Bool → Result ViewError Row → Answer
adestroy d consistent_envelope object =
    answer_for consistent_envelope (object >>= atomic_soft_delete d)
