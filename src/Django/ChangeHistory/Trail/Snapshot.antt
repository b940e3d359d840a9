-- ===== src/Django/ChangeHistory/Trail/Snapshot.antt =====
-- The snapshot behind a save, and what a later save still has to record.
use netix_backend.Prelude.{
  sym, ◌≡◌, refl, ap, ◌∙◌, Bool, true, false, Option, none, some, String, if◌then◌else◌, contains,
  Bool-cases, inl, inr,
}
use mathlib.Core.Option
use netix_backend.Prelude.Dict
use netix_backend.Prelude.Dict.{Dict}
use netix_backend.Django.ChangeHistory.Values.{same}
use netix_backend.Django.ChangeHistory.Actor.{Context, get_actor}
use netix_backend.Django.ChangeHistory.Trail.{
  Model, Row, Entry, Selection, current_value, history_values, build_history_entry,
  sync_history_snapshot, record_entry, save, django_save, read_fields, synced, reads_deferred,
  rebased, any_deferred,
}
use netix_backend.Django.ChangeHistory.Trail.Deferred.{
  read_fields-keeps, reads_once, read_history-keeps, read_history-read,
}
use netix_backend.Django.ChangeHistory.Trail.Diff.{history_values-get, no_entry, expected}

abbrev or_older {ℓ} : {A : Type ℓ} → Option A → Option A → Option A
or_older none old = old
or_older (some v) old = some v

module _ (m : Model) where
  -- The row that a save hands on to Django, once the fields are read.
  abbrev saved_row : Option Entry → Selection → Row → Row
  saved_row e update_fields r = django_save (record_entry m e update_fields (read_fields m r)).0

  saved_row-keeps :
      (e : Option Entry) (update_fields : Selection) (r : Row)
      → (saved_row e update_fields r).attributes ≡ r.attributes
  unfolding record_entry
  saved_row-keeps none update_fields r = (read_fields-keeps m r).0
  saved_row-keeps (some e) update_fields r =
      (read_history-keeps m (read_fields m r)).0 ∙ (read_fields-keeps m r).0

  -- The save reads no field a second time.
  saved_row-read :
      (e : Option Entry) (update_fields : Selection) (r : Row)
      → reads_deferred m (saved_row e update_fields r) ≡ false
  unfolding record_entry reads_deferred
  saved_row-read none update_fields r = reads_once m r
  saved_row-read (some e) update_fields r = read_history-read m (read_fields m r) (reads_once m r)

  saved_row-whole :
      (e : Option Entry) (update_fields : Selection) (r : Row)
      → read_fields m (saved_row e update_fields r) ≡ saved_row e update_fields r
  unfolding read_fields
  saved_row-whole e update_fields r =
      ap (λ b. rebased m b (saved_row e update_fields r)) (saved_row-read e update_fields r)

  -- A full save leaves the row read, with the snapshot of its values.
  full_save :
      (c : Context) (now : String) (r : Row)
      → ((save m c now none r).0.snapshot ≡ some (history_values m r.attributes none))
        × ((save m c now none r).0.attributes ≡ r.attributes)
        × (reads_deferred m (save m c now none r).0 ≡ false)
        × ((save m c now none r).0.adding ≡ false)
  unfolding save sync_history_snapshot reads_deferred
  full_save c now r =
      let e = build_history_entry m (get_actor c) now none r in
      let s = saved_row e none r in
      let whole = saved_row-whole e none r in
      let same_values = saved_row-keeps e none r in
      let values : (read_fields m s).attributes ≡ r.attributes =
        ap (λ x. x.attributes) whole ∙ same_values in
      (
        full (read_fields m s) r.adding ∙ ap (λ a. some (history_values m a none)) values,
        values,
        ap (λ x. any_deferred m x.deferred m.history_fields) whole ∙ saved_row-read e none r,
        ap (λ x. x.adding) whole,
      )
    where
      full :
          (x : Row) (b : Bool)
          → some (synced m x (if b then none else none)) ≡ some (history_values m x.attributes none)
      full x true = refl
      full x false = refl

  nothing_expected :
      (r : Row)
      → ((name : String)
          → same (current_value m r.attributes name) (current_value m r.attributes name) ≡ true)
      → (name : String) → expected m none (history_values m r.attributes none) r name ≡ none
  nothing_expected r reflexive name = elim (Bool-cases (contains m.history_fields name)) [
    | inl listed ↦ rw (history_values-get m r.attributes name) (rw listed (rw (reflexive name)))
    | inr other ↦ rw other
  ]

  -- After a full save nothing is left to record: a second save adds no entry, given that each
  -- value equals itself.
  pub save_twice :
      (c c' : Context) (now later : String) (r : Row)
      → ((name : String)
          → same (current_value m r.attributes name) (current_value m r.attributes name) ≡ true)
      → build_history_entry m (get_actor c') later none (save m c now none r).0 ≡ none
  save_twice c c' now later r reflexive =
      let s = (save m c now none r).0 in
      let (snapshot, kept, read, added) = full_save c now r in
      no_entry m (get_actor c') later none s (history_values m s.attributes none) added
        (snapshot ∙ ap (λ a. some (history_values m a none)) (sym kept))
        λ name.
          ap
            (λ b.
              expected m none
                (if b
                  then history_values m s.attributes none
                  else history_values m s.attributes none)
                s name)
            read
          ∙ nothing_expected s (λ n. rw kept (reflexive n)) name
