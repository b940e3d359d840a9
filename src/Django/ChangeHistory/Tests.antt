-- ===== src/Django/ChangeHistory/Tests.antt =====
-- A shift model with two fields, its saves, and the theorems at them.
use netix_backend.Prelude.{
  ◌≤◌, ◌-◌, ◌≡◌, refl, true, false, List, [], ◌∷◌, ◌++◌, Option, none, some, String, str_eq, arith,
  length, drop, if◌then◌else◌,
}
use mathlib.Core.Option
use netix_backend.Prelude.Int.{pos}
use netix_backend.Prelude.Dict
use netix_backend.Prelude.Dict.{Dict}
use netix_backend.Django.ChangeHistory.Values.{Value, int, text, same, is_blank, json_safe}
use netix_backend.Django.ChangeHistory.Actor.{Context, User, anonymous, get_actor}
use netix_backend.Django.ChangeHistory.Trail.{
  Model, Row, Entry, Change, keep_last, action_for, history_attname, history_display, change_of,
  current_value, values_over, history_values, from_db, created_changes, updated_changes,
  history_entry, build_history_entry, merge_saved, sync_history_snapshot, record_entry, save,
  with_history, reads_deferred, read_fields, read_history,
}
use netix_backend.Django.ChangeHistory.Trail.Cap.{after, save_appends}
use netix_backend.Django.ChangeHistory.Trail.Deferred.{baseline}
use netix_backend.Django.ChangeHistory.Trail.Diff.{
  build_history_entry-diff, change_in, changes_of, expected,
}
use netix_backend.Django.ChangeHistory.Trail.Snapshot.{save_twice}

trail : Unit {0}
unfolding keep_last action_for history_attname history_display change_of current_value values_over
    history_values from_db created_changes updated_changes history_entry build_history_entry
    merge_saved sync_history_snapshot record_entry save reads_deferred read_fields read_history same
    is_blank json_safe Dict.get Dict.set get_actor
trail = tt

abbrev field_of : String → Option (String × List (Value × String))
field_of name =
    if str_eq name "shift"
    then some ("shift_id", [])
    else if str_eq name "status"
    then some ("status", (int (pos 1), "PRESENT") ∷ (int (pos 2), "ABSENT") ∷ [])
    else none

abbrev attendance : Model
attendance = record {
  history_fields = "shift" ∷ "status" ∷ [];
  history_max_entries = pos 2;
  get_field = field_of;
}

abbrev loaded_values : Dict Value
loaded_values = ("shift", int (pos 7)) ∷ ("status", int (pos 1)) ∷ []

abbrev row : Row
row = record {
  attributes = ("shift_id", int (pos 7)) ∷ ("status", int (pos 2)) ∷ [];
  deferred = [];
  change_history = [];
  snapshot = some loaded_values;
  adding = false;
}

abbrev main_thread : Context
main_thread = record { id = 1; actor = none }

abbrev absent : Change
absent = record {
  field = "status";
  old = int (pos 1);
  new = int (pos 2);
  old_display = some "PRESENT";
  new_display = some "ABSENT";
}

abbrev updated : Entry
updated = record {
  at = "noon";
  action = "updated";
  source = "system";
  by = none;
  by_name = "";
  reason = "";
  changes = absent ∷ [];
}

status_saved : build_history_entry attendance anonymous "noon" none row ≡ some updated
unfolding trail
status_saved = refl

shift_alone : build_history_entry attendance anonymous "noon" (some ("shift_id" ∷ [])) row ≡ none
unfolding trail
shift_alone = refl

created :
    changes_of (
      build_history_entry attendance anonymous "noon" none
        (record row { adding = true; snapshot = none; attributes = ("status", text "") ∷ [] }))
    ≡ []
unfolding trail
created = refl

save_appends_example :
    ((after attendance main_thread "noon" none row).change_history
      ≡ drop {A = Entry} (0 - 1) [] ++ updated ∷ [])
    × (length (after attendance main_thread "noon" none row).change_history ≤ 2)
    × ((save attendance main_thread "noon" none row).1 ≡ with_history none)
save_appends_example =
    save_appends attendance main_thread "noon" none row 1 updated refl (unfold trail in refl)

build_history_entry-diff_example :
    change_in (changes_of (build_history_entry attendance anonymous "noon" none row)) "status"
    ≡ expected attendance none (baseline attendance row loaded_values) row "status"
build_history_entry-diff_example =
    build_history_entry-diff attendance anonymous "noon" none row loaded_values refl refl "status"

-- Every field of the row reads as itself.
row_reflexive :
    (name : String)
    → same
        (current_value attendance row.attributes name)
        (current_value attendance row.attributes name)
      ≡ true
unfolding trail
row_reflexive name = ground arith

save_twice_example :
    build_history_entry attendance anonymous "later" none
      (save attendance main_thread "noon" none row).0
    ≡ none
unfolding get_actor
save_twice_example = save_twice attendance main_thread main_thread "noon" "later" row row_reflexive

-- A row whose shift was not loaded: reading it for the diff forgets the change of the status.
status_forgotten :
    build_history_entry attendance anonymous "noon" none
      (record row { deferred = "shift_id" ∷ []; snapshot = some (("status", int (pos 1)) ∷ []) })
    ≡ none
unfolding trail
status_forgotten = refl

-- A row whose trail was not loaded: the entry of the saved status takes a new snapshot, and the shift
-- that was assigned and left out is forgotten.
shift_forgotten :
    (save attendance main_thread "noon" (some ("status" ∷ [])) (record row {
      attributes = ("shift_id", int (pos 8)) ∷ ("status", int (pos 2)) ∷ [];
      deferred = "change_history" ∷ [];
    })).0.snapshot
    ≡ some (("shift", int (pos 8)) ∷ ("status", int (pos 2)) ∷ [])
unfolding trail
shift_forgotten = refl

abbrev ann : User
ann = record { int_pk = some (pos 4); full_name = some " Ann "; username = "ann" }

-- A block that binds nobody and reports its actor's name.
abbrev who : Context → String × Context
who c = ((get_actor c).name, record c { actor = none })
