-- ===== src/Django/ChangeHistory/Trail.antt =====
-- `ChangeHistoryModel`: the diff of a save against the row as it was loaded.
pub mod Cap
pub mod Deferred
pub mod Diff
pub mod Rows
pub mod Snapshot
use netix_backend.Prelude.{
  zero, suc, ◌-◌, Bool, true, false, not, ◌&&◌, ◌||◌, List, [], ◌∷◌, ◌++◌, Option, none, some,
  String, str_eq, if◌then◌else◌, contains, length, drop,
}
use netix_backend.Prelude.Int.{ℤ, pos, negsuc, eqb_ℤ}
use netix_backend.Prelude.Dict
use netix_backend.Prelude.Dict.{Dict}
use netix_backend.Django.ChangeHistory.Values.{
  Value, null, bool, int, float, whole, other, same, is_blank, json_safe,
}
use netix_backend.Django.ChangeHistory.Actor.{ChangeActor, Context, get_actor}
unfoldable pub use netix_backend.Django.ChangeHistory.Trail.Rows.{keep_last, action_for}
pub use netix_backend.Django.ChangeHistory.Trail.Rows.{
  Change, Entry, Model, Row, Selection, value_or_null, dict_or_empty, truthy_value, label_in,
  is_empty, with_history, django_save,
}

module _ (m : Model) where
  unfoldable pub history_attname : String → String
  history_attname name = elim (m.get_field name) [ none ↦ name | some (attname, choices) ↦ attname ]

  unfoldable pub history_display : String → Value → Option String
  history_display name value = elim (m.get_field name) [
    | none ↦ none
    | some (attname, choices) ↦ label_in choices value
  ]

  unfoldable pub change_of : String → Value → Value → Change
  change_of name old new = record {
    field = name;
    old = old;
    new = new;
    old_display = history_display name old;
    new_display = history_display name new;
  }

  -- The field's value on the row, safe for JSON; a missing attribute reads as None.
  unfoldable pub current_value : Dict Value → String → Value
  current_value attributes name =
      json_safe (value_or_null (Dict.get attributes (history_attname name)))

  -- `name in update_fields or attname in update_fields`, where there are any.
  abbrev pub chosen : Selection → String → Bool
  chosen none name = true
  chosen (some names) name = contains names name || contains names (history_attname name)

  -- `_history_values(loaded=…)` over the names of a list.
  unfoldable pub values_over : Dict Value → Selection → List String → Dict Value → Dict Value
  values_over attributes loaded [] values = values
  values_over attributes loaded (name ∷ names) values =
      values_over attributes loaded names (
        if chosen loaded name then Dict.set values name (current_value attributes name) else values)

  unfoldable pub history_values : Dict Value → Selection → Dict Value
  history_values attributes loaded = values_over attributes loaded m.history_fields []

  -- `from_db`: the instance has just been built from the columns `loaded`.
  unfoldable pub from_db : Row → List String → Row
  from_db r loaded = record r { snapshot = some (history_values r.attributes (some loaded)) }

  -- A whitelisted field is deferred, so that `_history_values()` runs a query for it.
  abbrev pub any_deferred : List String → List String → Bool
  any_deferred deferred [] = false
  any_deferred deferred (name ∷ names) =
      contains deferred (history_attname name) || any_deferred deferred names

  unfoldable pub reads_deferred : Row → Bool
  reads_deferred r = any_deferred r.deferred m.history_fields

  abbrev pub without : String → List String → List String
  without attname [] = []
  without attname (a ∷ deferred) =
      let rest = without attname deferred in if str_eq a attname then rest else a ∷ rest

  -- Every whitelisted field has been read.
  abbrev pub all_read : List String → List String → List String
  all_read deferred [] = deferred
  all_read deferred (name ∷ names) = without (history_attname name) (all_read deferred names)

  abbrev pub rebased : Bool → Row → Row
  rebased false r = r
  rebased true r = record r {
    deferred = all_read r.deferred m.history_fields;
    snapshot = some (history_values r.attributes none);
  }

  -- What `_history_values()` does to the row. Django loads a deferred attribute by the row's
  -- `refresh_from_db`, which reads the other whitelisted fields likewise, so that the outermost of
  -- these calls leaves all of them read and the snapshot with their values.
  unfoldable pub read_fields : Row → Row
  read_fields r = rebased (reads_deferred r) r

  -- `refresh_from_db`, once Django has re-read the attributes.
  unfoldable pub refresh_from_db : Row → Row
  refresh_from_db r =
      let read = read_fields r in record read { snapshot = some (history_values r.attributes none) }

  unfoldable pub history_entry : ChangeActor → String → String → List Change → Entry
  history_entry actor now action changes = record {
    at = now;
    action = action;
    source = actor.source;
    by = actor.user_id;
    by_name = actor.name;
    reason = actor.reason;
    changes = changes;
  }

  -- The changes of a creation: every value that is not blank.
  unfoldable pub created_changes : Dict Value → List Change
  created_changes [] = []
  created_changes ((name, value) ∷ current) =
      let rest = created_changes current in
      if is_blank value then rest else change_of name null value ∷ rest

  -- What one field adds to the changes of an update.
  abbrev pub change_from : Selection → String → Value → Option Value → List Change
  change_from update_fields name value none = []
  change_from update_fields name value (some old) =
      if not (same old value) && chosen update_fields name
      then change_of name old value ∷ []
      else []

  unfoldable pub updated_changes : Selection → Dict Value → Dict Value → List Change
  updated_changes update_fields snapshot [] = []
  updated_changes update_fields snapshot ((name, value) ∷ current) =
      change_from update_fields name value (Dict.get snapshot name)
      ++ updated_changes update_fields snapshot current

  abbrev pub entry_of_changes : ChangeActor → String → List Change → Option Entry
  entry_of_changes actor now [] = none
  entry_of_changes actor now (c ∷ cs) =
      some (history_entry actor now (action_for (c ∷ cs)) (c ∷ cs))

  abbrev pub entry_against :
      ChangeActor → String → Selection → Dict Value → Option (Dict Value) → Option Entry
  entry_against actor now update_fields current none = none
  entry_against actor now update_fields current (some snapshot) =
      entry_of_changes actor now (updated_changes update_fields snapshot current)

  abbrev pub entry_when : ChangeActor → String → Selection → Row → Dict Value → Bool → Option Entry
  entry_when actor now update_fields r current true =
      some (history_entry actor now "created" (created_changes current))
  entry_when actor now update_fields r current false =
      entry_against actor now update_fields current r.snapshot

  unfoldable pub build_history_entry : ChangeActor → String → Selection → Row → Option Entry
  build_history_entry actor now update_fields r =
      if is_empty m.history_fields
      then none
      else entry_when actor now update_fields (read_fields r) (history_values r.attributes none)
          r.adding

  -- The values of the saved fields over the old snapshot.
  unfoldable pub merge_saved : List String → Dict Value → Dict Value → Dict Value
  merge_saved names snapshot [] = snapshot
  merge_saved names snapshot ((name, value) ∷ values) =
      merge_saved names
        (if chosen (some names) name then Dict.set snapshot name value else snapshot) values

  abbrev pub synced : Row → Selection → Dict Value
  synced r none = history_values r.attributes none
  synced r (some names) =
      merge_saved names (dict_or_empty r.snapshot) (history_values r.attributes none)

  unfoldable pub sync_history_snapshot : Selection → Row → Row
  sync_history_snapshot update_fields r =
      let read = read_fields r in record read { snapshot = some (synced read update_fields) }

  -- What `self.change_history` does to the row where that column is deferred: Django loads it by the
  -- row's `refresh_from_db` too.
  abbrev pub retaken : Bool → Row → Row
  retaken false r = r
  retaken true r = record r {
    deferred = without "change_history" r.deferred;
    snapshot = some (history_values r.attributes none);
  }

  unfoldable pub read_history : Row → Row
  read_history r = retaken (contains r.deferred "change_history") r

  -- The row with the entry, and the `update_fields` that go on to Django.
  unfoldable pub record_entry : Option Entry → Selection → Row → Row × Selection
  record_entry none update_fields r = (r, update_fields)
  record_entry (some e) update_fields r = (
    record (read_history r) {
      change_history = keep_last m.history_max_entries (r.change_history ++ e ∷ []);
    },
    with_history update_fields,
  )

  -- `save`, at the time `now`; the entry is built of the fields that are read for it: the row after
  -- it, and the `update_fields` that Django was given.
  unfoldable pub save : Context → String → Selection → Row → Row × Selection
  save c now update_fields r =
      let entry = build_history_entry (get_actor c) now update_fields r in
      let (recorded, passed) = record_entry entry update_fields (read_fields r) in
      (
        sync_history_snapshot (if r.adding then none else update_fields) (django_save recorded),
        passed,
      )
