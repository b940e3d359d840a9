-- ===== src/Django/Models/Tests.antt =====
-- Rows in a storage that holds one.
use netix_backend.Prelude.{
  ℕ, ◌≡◌, refl, sym, ap, ◌∙◌, true, false, List, [], ◌∷◌, Option, none, some, String, Result, ok,
  err, ok_inj,
}
use netix_backend.Django.Models.{
  Row, alive, dead, stamp_and_update, SaveError, integrity_error, validation_error, merged, Storage,
  ensure_updated_on, save, soft_delete, slugged,
}
use netix_backend.Django.Models.Deleted.{soft_delete-stored}

abbrev write_one : Option Row → ℕ → Row → Option (List String) → Result SaveError (Option Row)
write_one none now row names = err (integrity_error "no row")
write_one (some old) now row none = ok (some (record row { updated_on = now }))
write_one (some old) now row (some names) =
    ok (some (merged names (record row { updated_on = now }) old))

write_one-stored :
    (s s' : Option Row) (now : ℕ) (row old : Row) (names : List String)
    → s ≡ some old
    → write_one s now row (some names) ≡ ok s'
    → s' ≡ some (merged names (record row { updated_on = now }) old)
write_one-stored none s' now row old names h e = absurd (cc)
write_one-stored (some was) s' now row old names h e =
    sym (ok_inj e) ∙ ap some (ap (merged names (record row { updated_on = now })) (some_inj h))
  where
    some_inj : {a b : Row} → some a ≡ some b → a ≡ b
    some_inj same = cc

abbrev one_row : Storage
one_row = record {
  S = Option Row;
  stored = λ s pk. s;
  write = write_one;
  stored-write = write_one-stored;
}

abbrev old_row : Row
old_row = record {
  pk = 1;
  created_on = 3;
  updated_on = 4;
  is_deleted = false;
  others = λ name. "old";
}

-- A row in memory with an unsaved change.
abbrev changed : Row
changed = record old_row { others = λ name. "new" }

opened : Unit {0}
unfolding alive dead stamp_and_update ensure_updated_on save soft_delete slugged
opened = tt

split :
    (alive (old_row ∷ record old_row { is_deleted = true } ∷ []) ≡ old_row ∷ [])
    × (dead (old_row ∷ record old_row { is_deleted = true } ∷ [])
        ≡ record old_row { is_deleted = true } ∷ [])
unfolding opened
split = (refl, refl)

stamps : (stamp_and_update 9 [] ("a" ∷ "updated_on" ∷ "a" ∷ [])).1 ≡ "a" ∷ "updated_on" ∷ []
unfolding opened
stamps = refl

refused : (soft_delete one_row (λ r. none) none 9 changed).1 ≡ err (validation_error "no row")
unfolding opened
refused = refl

soft_delete-stored_example :
    (◌≡◌ {A = Option SaveError} none none)
    × ((kept : Row) × (one_row.stored
            (some (
              merged
                ("is_deleted" ∷ "updated_on" ∷ [])
                (record changed { is_deleted = true; updated_on = 9 })
                old_row))
            1
          ≡ some kept)
        × (kept.is_deleted ≡ true)
        × (kept.updated_on ≡ 9)
        × (kept.created_on ≡ 3)
        × (kept.others "name" ≡ "old"))
unfolding opened
soft_delete-stored_example =
    soft_delete-stored one_row (λ r. none) (some old_row)
      (some (
        merged ("is_deleted" ∷ "updated_on" ∷ [])
          (record changed { is_deleted = true; updated_on = 9 }) old_row))
      9 changed (record changed { is_deleted = true }) old_row "name" (λ e. cc) (λ e. cc) refl refl
