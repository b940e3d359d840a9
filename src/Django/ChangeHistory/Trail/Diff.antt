-- ===== src/Django/ChangeHistory/Trail/Diff.antt =====
-- Which fields an entry names, and from which value to which.
use netix_backend.Prelude.{
  ◌≡◌, refl, sym, ap, ◌∙◌, Bool, true, false, not, ◌&&◌, List, [], ◌∷◌, ◌++◌, Option, none, some,
  String, str_eq, eq_iff, eq_refl, if◌then◌else◌, contains, arith, Bool-cases, ◌⊎◌, inl, inr,
}
use netix_backend.Prelude.Dict
use netix_backend.Prelude.Dict.{Dict, get-set, IsDistinct, set-IsDistinct}
use netix_backend.Django.ChangeHistory.Values.{Value, same}
use netix_backend.Django.ChangeHistory.Actor.{ChangeActor}
use netix_backend.Django.ChangeHistory.Trail.Deferred.{baseline, read_fields-snapshot}
use netix_backend.Django.ChangeHistory.Trail.{
  Model, Row, Entry, Change, Selection, chosen, current_value, values_over, history_values,
  change_of, change_from, updated_changes, history_entry, entry_of_changes, build_history_entry,
  is_empty,
}

-- The first change of a field.
abbrev pub change_in : List Change → String → Option Change
change_in [] name = none
change_in (c ∷ cs) name = if str_eq c.field name then some c else change_in cs name

abbrev pub changes_of : Option Entry → List Change
changes_of none = []
changes_of (some e) = e.changes

contains_of_is_empty :
    (names : List String) (name : String) → is_empty names ≡ true → contains names name ≡ false
contains_of_is_empty [] name h = refl
contains_of_is_empty (n ∷ names) name h = absurd (cc)

abbrev or_else {ℓ} : {A : Type ℓ} → Option A → Option A → Option A
or_else none b = b
or_else (some a) b = some a

or_else-none {ℓ} : {A : Type ℓ} (a b : Option A) → b ≡ none → or_else a b ≡ a
or_else-none none b h = h
or_else-none (some a) b h = refl

module _ (m : Model) where
  -- What a save should record of a field: from the snapshot's value to the row's, where the field
  -- is whitelisted, was loaded, differs and is among the fields that are saved.
  abbrev recorded_as : Selection → String → Value → Option Value → Option Change
  recorded_as update_fields name value none = none
  recorded_as update_fields name value (some old) =
      if not (same old value) && chosen m update_fields name
      then some (change_of m name old value)
      else none

  abbrev of_value : Selection → Dict Value → String → Option Value → Option Change
  of_value update_fields snapshot name none = none
  of_value update_fields snapshot name (some value) =
      recorded_as update_fields name value (Dict.get snapshot name)

  abbrev pub expected : Selection → Dict Value → Row → String → Option Change
  expected update_fields snapshot r name =
      if contains m.history_fields name
      then recorded_as update_fields name (current_value m r.attributes name)
          (Dict.get snapshot name)
      else none

  -- The values of a row: one for each whitelisted field.
  values_over-get :
      (attributes : Dict Value) (names : List String) (values : Dict Value) (k : String)
      → Dict.get (values_over m attributes none names values) k
        ≡ (if contains names k then some (current_value m attributes k) else Dict.get values k)
  unfolding values_over
  values_over-get attributes [] values k = refl
  values_over-get attributes (name ∷ names) values k =
      values_over-get attributes names (Dict.set values name (current_value m attributes name)) k
      ∙ rw get-set (ground (arith, eq_iff name k))

  values_over-IsDistinct :
      (attributes : Dict Value) (loaded : Selection) (names : List String) (values : Dict Value)
      → IsDistinct values
      → IsDistinct (values_over m attributes loaded names values)
  unfolding values_over
  values_over-IsDistinct attributes loaded [] values h = h
  values_over-IsDistinct attributes loaded (name ∷ names) values h =
      values_over-IsDistinct attributes loaded names _ (kept (chosen m loaded name))
    where
      kept :
          (b : Bool)
          → IsDistinct
              (if b then Dict.set values name (current_value m attributes name) else values)
      kept true = set-IsDistinct values name (current_value m attributes name) h
      kept false = h

  change_in-append :
      (update_fields : Selection) (name k : String) (value : Value) (o : Option Value)
      (cs : List Change)
      → change_in (change_from m update_fields name value o ++ cs) k ≡ (
          if str_eq name k
          then or_else (recorded_as update_fields name value o) (change_in cs k)
          else change_in cs k)
  unfolding change_of
  change_in-append update_fields name k value none cs = ground arith
  change_in-append update_fields name k value (some old) cs = ground arith

  updated_changes-get :
      (update_fields : Selection) (snapshot current : Dict Value) (k : String)
      → IsDistinct current
      → change_in (updated_changes m update_fields snapshot current) k
        ≡ of_value update_fields snapshot k (Dict.get current k)
  unfolding updated_changes Dict.get
  updated_changes-get update_fields snapshot [] k h = refl
  updated_changes-get update_fields snapshot ((name, value) ∷ current) k (fresh, h) =
      change_in-append update_fields name k value (Dict.get snapshot name)
        (updated_changes m update_fields snapshot current)
      ∙ here_or_later (updated_changes-get update_fields snapshot current k h)
          (Bool-cases (str_eq name k))
    where
      later : Option Change
      later = change_in (updated_changes m update_fields snapshot current) k

      first : String → Option Change
      first n = recorded_as update_fields n value (Dict.get snapshot n)

      here_or_later :
          later ≡ of_value update_fields snapshot k (Dict.get current k)
          → (str_eq name k ≡ true) ⊎ (str_eq name k ≡ false)
          → (if str_eq name k then or_else (first name) later else later)
            ≡ of_value update_fields snapshot k
                (if str_eq name k then some value else Dict.get current k)
      here_or_later later-eq (inl hit) =
          let p : name ≡ k = (eq_iff name k).0 hit in
          let gone : Dict.get current k ≡ none = rw p at fresh in
          rw hit (
            or_else-none (first name) later (later-eq ∙ ap (of_value update_fields snapshot k) gone)
            ∙ ap first p)
      here_or_later later-eq (inr miss) = rw miss later-eq

  pub values-IsDistinct :
      (attributes : Dict Value) (loaded : Selection)
      → IsDistinct (history_values m attributes loaded)
  unfolding history_values
  values-IsDistinct attributes loaded =
      values_over-IsDistinct attributes loaded m.history_fields [] tt

  pub history_values-get :
      (attributes : Dict Value) (k : String)
      → Dict.get (history_values m attributes none) k
        ≡ (if contains m.history_fields k then some (current_value m attributes k) else none)
  unfolding history_values Dict.get
  history_values-get attributes k = values_over-get attributes m.history_fields [] k

  -- An entry is made of the changes, and of nothing if there are none.
  pub changes-entry :
      (actor : ChangeActor) (now : String) (cs : List Change)
      → changes_of (entry_of_changes m actor now cs) ≡ cs
  unfolding history_entry
  changes-entry actor now [] = refl
  changes-entry actor now (c ∷ cs) = refl

  update_changes :
      (actor : ChangeActor) (now : String) (update_fields : Selection) (r : Row)
      (snapshot : Dict Value)
      → r.adding ≡ false
      → r.snapshot ≡ some snapshot
      → is_empty m.history_fields ≡ false
      → changes_of (build_history_entry m actor now update_fields r)
        ≡ updated_changes m update_fields
            (baseline m r snapshot)
            (history_values m r.attributes none)
  unfolding build_history_entry
  update_changes actor now update_fields r snapshot adding loaded fields =
      simp (fields, adding, read_fields-snapshot m r snapshot loaded, changes-entry)

  -- The entry of an update names a field exactly where it is whitelisted, is saved, and differs from
  -- its value in the snapshot, which has one if the field was loaded, and says from which value to
  -- which; no entry names none. Where a whitelisted field is deferred, reading it replaces the
  -- snapshot by the row's own values before they are compared.
  pub build_history_entry-diff :
      (actor : ChangeActor) (now : String) (update_fields : Selection) (r : Row)
      (snapshot : Dict Value)
      → r.adding ≡ false
      → r.snapshot ≡ some snapshot
      → (name : String)
      → change_in (changes_of (build_history_entry m actor now update_fields r)) name
        ≡ expected update_fields (baseline m r snapshot) r name
  build_history_entry-diff actor now update_fields r snapshot adding loaded name =
      elim (Bool-cases (is_empty m.history_fields)) [
        | inl none_listed ↦
            unfold build_history_entry in
            rw none_listed (rw (contains_of_is_empty m.history_fields name none_listed))
        | inr fields ↦
            ap (λ cs. change_in cs name)
              (update_changes actor now update_fields r snapshot adding loaded fields)
            ∙ updated_changes-get update_fields (baseline m r snapshot)
                (history_values m r.attributes none) name (values-IsDistinct r.attributes none)
            ∙ ap (of_value update_fields (baseline m r snapshot) name)
                (history_values-get r.attributes name)
            ∙ of_value-if (contains m.history_fields name)
      ]
    where
      of_value-if :
          (b : Bool)
          → of_value update_fields
              (baseline m r snapshot)
              name
              (if b then some (current_value m r.attributes name) else none)
            ≡ (if b
                then recorded_as update_fields name
                    (current_value m r.attributes name)
                    (Dict.get (baseline m r snapshot) name)
                else none)
      of_value-if true = refl
      of_value-if false = refl

  all_none : (cs : List Change) → ((name : String) → change_in cs name ≡ none) → cs ≡ []
  all_none [] h = refl
  all_none (c ∷ cs) h = ground (arith, h c.field, eq_refl c.field)

  -- An update to which nothing is expected records no entry.
  pub no_entry :
      (actor : ChangeActor) (now : String) (update_fields : Selection) (r : Row)
      (snapshot : Dict Value)
      → r.adding ≡ false
      → r.snapshot ≡ some snapshot
      → ((name : String) → expected update_fields (baseline m r snapshot) r name ≡ none)
      → build_history_entry m actor now update_fields r ≡ none
  no_entry actor now update_fields r snapshot adding loaded h =
      elim (Bool-cases (is_empty m.history_fields)) [
        | inl none_listed ↦ unfold build_history_entry in rw none_listed
        | inr fields ↦
            let blank : updated_changes m update_fields (baseline m r snapshot)
                  (history_values m r.attributes none)
                ≡ [] =
              sym (update_changes actor now update_fields r snapshot adding loaded fields)
              ∙ all_none (changes_of (build_history_entry m actor now update_fields r)) (λ name.
                build_history_entry-diff actor now update_fields r snapshot adding loaded name
                ∙ h name) in
            unfold build_history_entry in
            simp (fields, adding, read_fields-snapshot m r snapshot loaded, blank)
      ]
