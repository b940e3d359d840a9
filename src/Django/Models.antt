-- ===== src/Django/Models.antt =====
-- netix_backend/django/models.py: timestamps, soft delete, and the named shapes.
mod Deleted
mod Named
mod Tests
use Prim.Native.String
use netix_backend.Prelude.{
  ℕ, ◌==◌, ◌≡◌, ◌&&◌, ◌||◌, Bool, true, false, not, List, [], ◌∷◌, ◌++◌, map, Option, none, some,
  String, str_eq, contains, if◌then◌else◌, Result, ok, err, ◌>>=◌,
}
use netix_backend.Prelude.Int.{ℤ, pos, eqb_ℤ}
use netix_backend.Prelude.Dict.{Dict, get, set}

-- A row: the columns of BaseModel, and the values of the others by their names. Times are numbers.
pub record Row : Type 0 where
  pub pk : ℕ
  pub created_on : ℕ
  pub updated_on : ℕ
  pub is_deleted : Bool
  pub others : String → String

abbrev pub filter_by : (Row → Bool) → List Row → List Row
filter_by p [] = []
filter_by p (r ∷ rs) = let rest = filter_by p rs in if p r then r ∷ rest else rest

unfoldable pub alive : List Row → List Row
alive = filter_by (λ r. not r.is_deleted)

unfoldable pub dead : List Row → List Row
dead = filter_by (λ r. r.is_deleted)

abbrev pub without : String → List String → List String
without x [] = []
without x (y ∷ ys) = let rest = without x ys in if str_eq x y then rest else y ∷ rest

-- list(dict.fromkeys(names)): the first of each name.
abbrev pub distinct : List String → List String
distinct [] = []
distinct (x ∷ xs) = x ∷ without x (distinct xs)

abbrev pub stamped_fields : List String → List String
stamped_fields fields = distinct (fields ++ "updated_on" ∷ [])

-- The rows and the columns that go to `bulk_update`, at the time `now`.
abbrev stamped : ℕ → Row → Row
stamped now row = record row { updated_on = now }

unfoldable pub stamp_and_update : ℕ → List Row → List String → List Row × List String
stamp_and_update now rows fields = (map (stamped now) rows, stamped_fields fields)

-- What `get` of a manager gives: several rows are an error of their own.
pub data GetError : Type 0 where
  does_not_exist multiple_objects_returned : GetError

unfoldable pub get_or_none : Result GetError Row → Result GetError (Option Row)
get_or_none (ok row) = ok (some row)
get_or_none (err does_not_exist) = ok none
get_or_none (err multiple_objects_returned) = err multiple_objects_returned

-- `_ensure_updated_on`, whose set is given in some order.
unfoldable pub ensure_updated_on : Option (List String) → Option (List String)
ensure_updated_on none = none
ensure_updated_on (some update_fields) = some (stamped_fields update_fields)

pub data SaveError : Type 0 where
  integrity_error : String → SaveError
  validation_error : String → SaveError
  other_error : String → SaveError

abbrev chosen : {A : Type 0} → Bool → A → A → A
chosen b new old = if b then new else old

-- What a save with `update_fields` leaves of a stored row: the named columns of the row in memory.
abbrev pub merged : List String → Row → Row → Row
merged names new old = record {
  pk = old.pk;
  created_on = chosen (contains names "created_on") new.created_on old.created_on;
  updated_on = chosen (contains names "updated_on") new.updated_on old.updated_on;
  is_deleted = chosen (contains names "is_deleted") new.is_deleted old.is_deleted;
  others = λ name. chosen (contains names name) (new.others name) (old.others name);
}

-- Django's save of a row, at a time, over the stored rows. With `update_fields` it writes the named
-- columns of a stored row; `updated_on`, an auto_now column, is the time of the save if it is named.
pub record Storage : Type 1 where
  pub S : Type 0
  pub stored : S → ℕ → Option Row
  pub write : S → ℕ → Row → Option (List String) → Result SaveError S
  pub stored-write :
      (s s' : S) (now : ℕ) (row old : Row) (names : List String)
      → stored s row.pk ≡ some old
      → write s now row (some names) ≡ ok s'
      → stored s' row.pk ≡ some (merged names (record row { updated_on = now }) old)

abbrev pub as_validation_error : {A : Type 0} → Result SaveError A → Result SaveError A
as_validation_error (ok a) = ok a
as_validation_error (err (integrity_error text)) = err (validation_error text)
as_validation_error (err e) = err e

module _ (storage : Storage) where
  unfoldable pub save : storage.S → ℕ → Row → Option (List String) → Result SaveError storage.S
  save s now row update_fields =
      as_validation_error (storage.write s now row (ensure_updated_on update_fields))

  -- The row in memory, which keeps its flag if the save fails, and
  -- what the save gives. `validate` is the hook.
  abbrev pub deleting : storage.S → ℕ → Row → Option SaveError → Row × Result SaveError storage.S
  deleting s now row (some e) = (row, err e)
  deleting s now row none =
      let deleted = record row { is_deleted = true } in
      (deleted, save s now deleted (some ("is_deleted" ∷ [])))

  unfoldable pub soft_delete :
      (Row → Option SaveError) → storage.S → ℕ → Row → Row × Result SaveError storage.S
  soft_delete validate s now row = deleting s now row (validate row)

  -- The async twins await the same steps.
  abbrev pub asave : storage.S → ℕ → Row → Option (List String) → Result SaveError storage.S
  asave = save

  abbrev pub asoft_delete :
      (Row → Option SaveError) → storage.S → ℕ → Row → Row × Result SaveError storage.S
  asoft_delete = soft_delete

-- f"{self.pk} - {self.name}", and with the class before it.
abbrev pub named_str : String → String → String
named_str pk name = String.◌++◌ pk (String.◌++◌ " - " name)

-- The two names of a SluggedNamedBaseModel, as its `save` leaves them.
pub record Names : Type 0 where
  pub name : String
  pub display_name : String

unfoldable pub slugged : (String → String) → Names → Names
slugged slugify n =
    let name = if str_eq n.name "" then slugify n.display_name else n.name in
    record { name = name; display_name = if str_eq n.display_name "" then name else n.display_name }

pub record Provenance : Type 0 where
  pub cloned_from_id : Option ℤ
  pub template_revision : ℤ
  pub is_customized : Bool

abbrev is_clone : Option ℤ → Bool
is_clone none = false
is_clone (some id) = not (eqb_ℤ id (pos 0))

unfoldable pub mark_customized : Provenance → Provenance
mark_customized p =
    if is_clone p.cloned_from_id && not p.is_customized
    then record p { is_customized = true }
    else p
