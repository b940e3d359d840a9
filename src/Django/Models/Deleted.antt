-- ===== src/Django/Models/Deleted.antt =====
-- What a soft delete writes, and what a bulk update stamps.
use netix_backend.Prelude.{
  ℕ, ◌≡◌, refl, ap, sym, true, [], ◌∷◌, Option, none, some, String, str_eq_of_ne, Result, ok, err,
  ◌≢◌,
}
use netix_backend.Django.Models.{
  Row, SaveError, integrity_error, validation_error, other_error, merged, Storage,
  as_validation_error, ensure_updated_on, save, deleting, soft_delete,
}

as_validation_error-ok :
    {A : Type 0} (r : Result SaveError A) (a : A) → as_validation_error r ≡ ok a → r ≡ ok a
as_validation_error-ok (ok b) a e = e
as_validation_error-ok (err (integrity_error text)) a e = absurd (cc)
as_validation_error-ok (err (validation_error text)) a e = absurd (cc)
as_validation_error-ok (err (other_error text)) a e = absurd (cc)

module _ (storage : Storage) where
  -- A soft delete that goes through has passed the hook, and writes the flag and the time of the
  -- save: every other column of the stored row keeps its value, whatever unsaved changes the row in
  -- memory carries.
  pub soft_delete-stored :
      (validate : Row → Option SaveError) (s s' : storage.S) (now : ℕ) (row after old : Row)
      (column : String)
      → column ≢ "is_deleted"
      → column ≢ "updated_on"
      → storage.stored s row.pk ≡ some old
      → soft_delete storage validate s now row ≡ (after, ok s')
      → (validate row ≡ none)
        × ((kept : Row) × (storage.stored s' row.pk ≡ some kept)
            × (kept.is_deleted ≡ true)
            × (kept.updated_on ≡ now)
            × (kept.created_on ≡ old.created_on)
            × (kept.others column ≡ old.others column))
  unfolding soft_delete save ensure_updated_on
  soft_delete-stored validate s s' now row after old column other_flag other_stamp there e =
      by_hook (validate row) refl e
    where
      by_hook :
          (hook : Option SaveError)
          → validate row ≡ hook
          → deleting storage s now row hook ≡ (after, ok s')
          → (validate row ≡ none)
            × ((kept : Row) × (storage.stored s' row.pk ≡ some kept)
                × (kept.is_deleted ≡ true)
                × (kept.updated_on ≡ now)
                × (kept.created_on ≡ old.created_on)
                × (kept.others column ≡ old.others column))
      by_hook (some x) is h = absurd (cc)
      by_hook none is h =
          let deleted : Row = record row { is_deleted = true } in
          let written =
            as_validation_error-ok
              (storage.write s now deleted (some ("is_deleted" ∷ "updated_on" ∷ []))) s'
              (ap (λ p. p.1) h) in
          (
            is,
            (
              merged ("is_deleted" ∷ "updated_on" ∷ []) (record deleted { updated_on = now }) old,
              storage.stored-write s s' now deleted old ("is_deleted" ∷ "updated_on" ∷ []) there
                  written,
              refl,
              refl,
              refl,
              rw
                  (
                    str_eq_of_ne "is_deleted" column (λ e. other_flag (sym e)),
                    str_eq_of_ne "updated_on" column (λ e. other_stamp (sym e)),
                  )
                  refl,
            ),
          )
