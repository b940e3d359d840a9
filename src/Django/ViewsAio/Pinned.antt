-- ===== src/Django/ViewsAio/Pinned.antt =====
-- netix_backend/django/views_aio.py: an async write against the sync one.
use netix_backend.Prelude.{◌≡◌, ◌≢◌, refl, Bool, true, false, [], ◌∷◌, Result, ok, err, ◌>>=◌}
use netix_backend.Prelude.Int.{ℤ}
use netix_backend.Prelude.Dict.{Dict}
use netix_backend.Django.Views.Identity.{ViewError}
use netix_backend.Django.Views.WriteScope.{
  View, Serializer, Write, inherited, saved, tenant_save_kwargs, perform_create, perform_update,
  save_pinned, create_check, update_check,
}
use netix_backend.Django.Views.SoftDelete.{SoftDelete, Row, destroy}
use netix_backend.Django.ViewsAio.{
  Hook, framework, tenant_scope, overridden, has_sync_override, create_by, update_by, AsyncWrite,
  by_hook, by_asave, by_save, asave, in_thread, by_kwargs, perform_acreate, perform_aupdate,
  adestroy, atomic_soft_delete,
}

-- The arguments that the serializer is saved with; the inherited hook passes none.
abbrev pub arguments : Write → Dict ℤ
arguments inherited = []
arguments (saved kwargs) = kwargs

abbrev pub async_arguments : AsyncWrite → Dict ℤ
async_arguments (by_hook w) = arguments w
async_arguments by_asave = []
async_arguments by_save = []

abbrev pub saved_with : Result ViewError Write → Result ViewError (Dict ℤ)
saved_with write = write >>= λ w. ok (arguments w)

abbrev pub async_saved_with : Result ViewError AsyncWrite → Result ViewError (Dict ℤ)
async_saved_with write = write >>= λ w. ok (async_arguments w)

in_thread-same :
    (write : Result ViewError Write) → async_saved_with (in_thread write) ≡ saved_with write
in_thread-same (ok w) = refl
in_thread-same (err e) = refl

asave-none : (has_asave : Bool) → async_arguments (asave has_asave) ≡ []
unfolding asave
asave-none true = refl
asave-none false = refl

-- Any check below the pinned save gives the same, in a thread or not.
pinned-same :
    (kwargs : Result ViewError (Dict ℤ)) (check : ℤ → Result ViewError (Unit {0}))
    (has_asave : Bool)
    → async_saved_with (kwargs >>= λ k. by_kwargs k has_asave (kwargs >>= λ j. save_pinned check j))
      ≡ saved_with (kwargs >>= λ k. save_pinned check k)
pinned-same (err e) check has_asave = refl
pinned-same (ok []) check has_asave = rw (asave-none has_asave) refl
pinned-same (ok ((field, n) ∷ k)) check has_asave =
    in_thread-same (save_pinned check ((field, n) ∷ k))

module _ (v : View) (has_asave : Bool) (s : Serializer) where
  acreate-same :
      (hook : Hook)
      → hook ≢ framework
      → async_saved_with (perform_acreate v hook has_asave s) ≡ saved_with (create_by hook v s)
  unfolding perform_acreate has_sync_override create_by perform_create
  acreate-same framework h = absurd (h refl)
  acreate-same tenant_scope h =
      pinned-same (tenant_save_kwargs v s)
        (λ n. create_check v.tenant_write_scope v.tenant_write_scope_field n s) has_asave
  acreate-same (overridden hook) h = in_thread-same (hook v s)

  aupdate-same :
      (hook : Hook)
      → hook ≢ framework
      → async_saved_with (perform_aupdate v hook has_asave s) ≡ saved_with (update_by hook v s)
  unfolding perform_aupdate has_sync_override update_by perform_update
  aupdate-same framework h = absurd (h refl)
  aupdate-same tenant_scope h =
      pinned-same (tenant_save_kwargs v s)
        (λ n. update_check v.tenant_write_scope v.tenant_write_scope_field n s) has_asave
  aupdate-same (overridden hook) h = in_thread-same (hook v s)

  -- With the write scope's hook or an override of it, an async create and an async update save with
  -- the arguments that the sync hook saves with, or raise what it raises, whether or not the
  -- serializer has an asave.
  pub async_writes-same :
      (hook : Hook)
      → hook ≢ framework
      → (async_saved_with (perform_acreate v hook has_asave s) ≡ saved_with (create_by hook v s))
        × (async_saved_with (perform_aupdate v hook has_asave s) ≡ saved_with (update_by hook v s))
  async_writes-same hook h = (acreate-same hook h, aupdate-same hook h)

-- The async soft delete answers as the sync one does.
adestroy-destroy :
    (d : SoftDelete) (envelope : Bool) (object : Result ViewError Row)
    → adestroy d envelope object ≡ destroy d envelope object
unfolding adestroy destroy atomic_soft_delete
adestroy-destroy d envelope object = refl
