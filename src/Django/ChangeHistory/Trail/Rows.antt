-- ===== src/Django/ChangeHistory/Trail/Rows.antt =====
-- `ChangeHistoryModel` of netix_backend/django/change_history.py: rows, entries and what is read off
-- them.
use netix_backend.Prelude.{
  zero, suc, ◌-◌, Bool, true, false, not, List, [], ◌∷◌, ◌++◌, Option, none, some, String, str_eq,
  if◌then◌else◌, length, drop,
}
use netix_backend.Prelude.Int.{ℤ, pos, negsuc, eqb_ℤ}
use netix_backend.Prelude.Dict.{Dict}
use netix_backend.Django.ChangeHistory.Values.{
  Value, null, bool, int, float, whole, other, same, is_blank,
}

pub record Change : Type 0 where
  pub field : String
  pub old : Value
  pub new : Value
  pub old_display : Option String
  pub new_display : Option String

pub record Entry : Type 0 where
  pub at : String
  pub action : String
  pub source : String
  pub by : Option ℤ
  pub by_name : String
  pub reason : String
  pub changes : List Change

-- A model class: its whitelist and cap, and what `_meta.get_field` says of a name: the attribute's
-- name and the choices, or nothing where it raises.
pub record Model : Type 0 where
  pub history_fields : List String
  pub history_max_entries : ℤ
  pub get_field : String → Option (String × List (Value × String))

-- An instance: the attributes that can be read, the column, the snapshot, and `_state.adding`. Of
-- the attributes and the column, those in `deferred` are in the database alone until they are read.
pub record Row : Type 0 where
  pub attributes : Dict Value
  pub deferred : List String
  pub change_history : List Entry
  pub snapshot : Option (Dict Value)
  pub adding : Bool

-- The names of `update_fields`; `none` is a full save.
abbrev pub Selection : Type 0
Selection = Option (List String)

abbrev pub value_or_null : Option Value → Value
value_or_null none = null
value_or_null (some v) = v

abbrev pub dict_or_empty : Option (Dict Value) → Dict Value
dict_or_empty none = []
dict_or_empty (some d) = d

-- history[-cap:]
unfoldable pub keep_last {ℓ} : {A : Type ℓ} → ℤ → List A → List A
keep_last (pos zero) history = history
keep_last (pos (suc n)) history = drop (length history - suc n) history
keep_last (negsuc n) history = drop (suc n) history

-- bool(value): a float is false at 0.0 alone.
abbrev pub truthy_value : Value → Bool
truthy_value (bool b) = b
truthy_value (int n) = not (eqb_ℤ n (pos 0))
truthy_value (float (whole n)) = not (eqb_ℤ n (pos 0))
truthy_value (float (other x)) = true
truthy_value v = not (is_blank v)

unfoldable pub action_for : List Change → String
action_for [] = "updated"
action_for (c ∷ cs) =
    if str_eq c.field "is_deleted"
    then (if truthy_value c.new then "deleted" else "restored")
    else action_for cs

-- The loop over `flatchoices`.
abbrev pub label_in : List (Value × String) → Value → Option String
label_in [] value = none
label_in ((choice, label) ∷ choices) value =
    if same choice value then some label else label_in choices value

abbrev pub is_empty : List String → Bool
is_empty [] = true
is_empty (_ ∷ _) = false

abbrev pub with_history : Selection → Selection
with_history none = none
with_history (some names) = some (names ++ "change_history" ∷ [])

-- `super().save` writes the columns and leaves the instance no longer being added.
abbrev pub django_save : Row → Row
django_save r = record r { adding = false }
