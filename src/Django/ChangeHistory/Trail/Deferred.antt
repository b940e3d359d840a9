-- ===== src/Django/ChangeHistory/Trail/Deferred.antt =====
-- What the fields that are read leave on the row, where one of them was deferred.
use netix_backend.Prelude.{
  ◌≡◌, refl, Bool, true, false, List, [], ◌∷◌, Option, none, some, String, str_eq, eq_iff,
  if◌then◌else◌, contains, arith, Bool-cases, inl, inr, ◌&&◌,
}
use netix_backend.Prelude.Dict.{Dict}
use netix_backend.Django.ChangeHistory.Values.{Value}
use netix_backend.Django.ChangeHistory.Trail.{
  Model, Row, Entry, history_attname, history_values, any_deferred, reads_deferred, without,
  all_read, rebased, read_fields, retaken, read_history,
}

abbrev pub is_recorded : Option Entry → Bool
is_recorded none = false
is_recorded (some e) = true

module _ (m : Model) where
  -- The snapshot that the diff compares with.
  abbrev pub baseline : Row → Dict Value → Dict Value
  baseline r snapshot = if reads_deferred m r then history_values m r.attributes none else snapshot

  -- The snapshot that a save adds to, where it records an entry or does not.
  abbrev pub baseline_of_save : Row → Bool → Dict Value → Dict Value
  baseline_of_save r recorded snapshot =
      if recorded && contains r.deferred "change_history"
      then history_values m r.attributes none
      else baseline r snapshot

  pub read_fields-snapshot :
      (r : Row) (snapshot : Dict Value)
      → r.snapshot ≡ some snapshot
      → (read_fields m r).snapshot ≡ some (baseline r snapshot)
  unfolding read_fields
  read_fields-snapshot r snapshot h = by_flag (reads_deferred m r)
    where
      by_flag :
          (b : Bool)
          → (rebased m b r).snapshot
            ≡ some (if b then history_values m r.attributes none else snapshot)
      by_flag true = refl
      by_flag false = h

  -- Nothing else of the row changes.
  pub read_fields-keeps :
      (r : Row)
      → ((read_fields m r).attributes ≡ r.attributes)
        × ((read_fields m r).change_history ≡ r.change_history)
        × ((read_fields m r).adding ≡ r.adding)
  unfolding read_fields
  read_fields-keeps r = by_flag (reads_deferred m r)
    where
      by_flag :
          (b : Bool)
          → ((rebased m b r).attributes ≡ r.attributes)
            × ((rebased m b r).change_history ≡ r.change_history)
            × ((rebased m b r).adding ≡ r.adding)
      by_flag true = (refl, refl, refl)
      by_flag false = (refl, refl, refl)

  pub read_history-keeps :
      (r : Row)
      → ((read_history m r).attributes ≡ r.attributes) × ((read_history m r).adding ≡ r.adding)
  unfolding read_history
  read_history-keeps r = by_flag (contains r.deferred "change_history")
    where
      by_flag :
          (b : Bool)
          → ((retaken m b r).attributes ≡ r.attributes) × ((retaken m b r).adding ≡ r.adding)
      by_flag true = (refl, refl)
      by_flag false = (refl, refl)

  contains-without :
      (attname : String) (deferred : List String) (a : String)
      → contains (without m attname deferred) a
        ≡ (if str_eq a attname then false else contains deferred a)
  contains-without attname [] a = ground arith
  contains-without attname (d ∷ deferred) a =
      ground
        (arith, eq_iff d attname, eq_iff a attname, eq_iff d a, contains-without attname deferred a)

  -- Once a field is not deferred, reading another one leaves it so.
  any-without :
      (attname : String) (deferred names : List String)
      → any_deferred m deferred names ≡ false
      → any_deferred m (without m attname deferred) names ≡ false
  any-without attname deferred [] h = refl
  any-without attname deferred (name ∷ names) h = ground (
    arith,
    contains-without attname deferred (history_attname m name),
    any-without attname deferred names,
  )

  any-all_read :
      (deferred names : List String) → any_deferred m (all_read m deferred names) names ≡ false
  any-all_read deferred [] = refl
  any-all_read deferred (name ∷ names) = ground (
    arith,
    eq_iff (history_attname m name) (history_attname m name),
    contains-without (history_attname m name) (all_read m deferred names) (history_attname m name),
    any-without (history_attname m name) (all_read m deferred names) names
        (any-all_read deferred names),
  )

  -- After the fields are read, none of them is deferred.
  pub reads_once : (r : Row) → reads_deferred m (read_fields m r) ≡ false
  unfolding read_fields reads_deferred
  reads_once r = elim (Bool-cases (any_deferred m r.deferred m.history_fields)) [
    | inl some_deferred ↦ rw some_deferred (any-all_read r.deferred m.history_fields)
    | inr loaded ↦ rw loaded loaded
  ]

  -- Reading the column defers no field again.
  pub read_history-read :
      (r : Row) → reads_deferred m r ≡ false → reads_deferred m (read_history m r) ≡ false
  unfolding read_history reads_deferred
  read_history-read r h = by_flag (contains r.deferred "change_history")
    where
      by_flag : (b : Bool) → any_deferred m (retaken m b r).deferred m.history_fields ≡ false
      by_flag true = any-without "change_history" r.deferred m.history_fields h
      by_flag false = h

  -- The snapshot behind both reads.
  pub read_history-snapshot :
      (r : Row) (snapshot : Dict Value)
      → r.snapshot ≡ some snapshot
      → (read_history m (read_fields m r)).snapshot ≡ some (baseline_of_save r true snapshot)
  unfolding read_history read_fields
  read_history-snapshot r snapshot h = by_flag (reads_deferred m r)
    where
      values : Dict Value
      values = history_values m r.attributes none

      both :
          (b d : Bool)
          → (retaken m b (rebased m true r)).snapshot ≡ some (if d then values else values)
      both true true = refl
      both true false = refl
      both false true = refl
      both false false = refl

      one : (d : Bool) → (retaken m d r).snapshot ≡ some (if d then values else snapshot)
      one true = refl
      one false = h

      by_flag :
          (b : Bool)
          → (retaken m
              (contains (rebased m b r).deferred "change_history")
              (rebased m b r)).snapshot
            ≡ some (
                if contains r.deferred "change_history"
                then values
                else if b
                then values
                else snapshot)
      by_flag true =
          both (contains (rebased m true r).deferred "change_history")
            (contains r.deferred "change_history")
      by_flag false = one (contains r.deferred "change_history")
