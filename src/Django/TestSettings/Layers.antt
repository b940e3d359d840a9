-- ===== src/Django/TestSettings/Layers.antt =====
-- netix_backend/django/test_settings.py: which layer a variable of the test environment comes from.
use netix_backend.Prelude.{
  ◌≡◌, ◌≢◌, refl, ◌∙◌, inl, inr, false, List, [], ◌∷◌, Option, none, some, String, str_eq,
  if◌then◌else◌, contains, arith, Bool-cases, eq_iff,
}
use netix_backend.Prelude.Dict
use netix_backend.Prelude.Dict.{Dict}
use netix_backend.Django.TestSettings.{
  test_env_defaults, setdefault, kept_or_set, set_defaults, assign, layered, forced_of,
  apply_test_env, managed, with_value,
}

abbrev pub first_of : Option String → Option String → Option String
first_of none later = later
first_of (some value) later = some value

first_of-none : (a : Option String) → first_of a none ≡ a
first_of-none none = refl
first_of-none (some a) = refl

first_of_assoc :
    (a : Option String) (value : String) (b : Option String)
    → first_of (first_of a (some value)) b ≡ first_of a (some value)
first_of_assoc none value b = refl
first_of_assoc (some a) value b = refl

-- A value that is present stays.
get-setdefault :
    (env : Dict String) (key value k : String)
    → Dict.get (setdefault env key value) k
      ≡ (if str_eq key k then first_of (Dict.get env k) (some value) else Dict.get env k)
unfolding setdefault
get-setdefault env key value k = by_found (Dict.get env key) refl
  where
    by_found :
        (found : Option String)
        → Dict.get env key ≡ found
        → Dict.get (kept_or_set env key value found) k
          ≡ (if str_eq key k then first_of (Dict.get env k) (some value) else Dict.get env k)
    by_found none h = ground (arith, Dict.get-set env key k value, eq_iff key k)
    by_found (some present) h = ground (arith, eq_iff key k)

get-set_defaults :
    (skipped : List String) (defaults env : Dict String) (k : String)
    → Dict.get (set_defaults skipped defaults env) k ≡ (
        if contains skipped k
        then Dict.get env k
        else first_of (Dict.get env k) (Dict.get defaults k))
unfolding set_defaults Dict.get
get-set_defaults skipped [] env k = ground arith
get-set_defaults skipped ((key, value) ∷ defaults) env k =
    elim (Bool-cases (contains skipped key)) [
      | inl skip ↦ rw skip (get-set_defaults skipped defaults env k ∙ ground (arith, eq_iff key k))
      | inr kept ↦ rw kept (
          get-set_defaults skipped defaults (setdefault env key value) k
          ∙ ground (
            arith,
            eq_iff key k,
            get-setdefault env key value k,
            first_of_assoc (Dict.get env k) value (Dict.get defaults k),
          ))
    ]

get-assign :
    (skipped : List String) (forced env : Dict String) (k : String)
    → Dict.IsDistinct forced
    → Dict.get (assign skipped forced env) k ≡ (
        if contains skipped k
        then Dict.get env k
        else first_of (Dict.get forced k) (Dict.get env k))
unfolding assign Dict.get
get-assign skipped [] env k d = ground arith
get-assign skipped ((key, value) ∷ forced) env k (fresh, d) =
    elim (Bool-cases (contains skipped key)) [
      | inl skip ↦ rw skip (get-assign skipped forced env k d ∙ ground (arith, eq_iff key k))
      | inr kept ↦ rw kept (
          get-assign skipped forced (Dict.set env key value) k d
          ∙ ground (arith, eq_iff key k, Dict.get-set env key k value))
    ]

-- An excluded variable is left alone; of any other the forced value wins, then what the environment
-- holds, then the override or default.
get-layered :
    (overrides : Dict String) (force : Option (Dict String)) (exclude : List String)
    (env : Dict String) (k : String)
    → Dict.IsDistinct (forced_of force)
    → Dict.get (layered overrides force exclude env) k ≡ (
        if contains exclude k
        then Dict.get env k
        else first_of
            (Dict.get (forced_of force) k)
            (first_of (Dict.get env k) (Dict.get (Dict.update test_env_defaults overrides) k)))
unfolding layered
get-layered overrides force exclude env k d =
    let defaults = Dict.update test_env_defaults overrides in
    get-assign exclude (forced_of force) (set_defaults exclude defaults env) k d
    ∙ ground (arith, get-set_defaults exclude defaults env k)

with_value-some :
    (key : String) (value : Option String) (others : Option (Dict String))
    → value ≢ none
    → others ≢ none
    → with_value key value others ≢ none
with_value-some key none others v o h = v refl
with_value-some key (some value) none v o h = o refl
with_value-some key (some value) (some others) v o h = absurd (cc)

-- Where every key is held, the mapping of the keys is there.
managed-some :
    (skipped : List String) (after keys : Dict String)
    → ((k : String) → contains skipped k ≡ false → Dict.get keys k ≢ none → Dict.get after k ≢ none)
    → managed skipped after keys ≢ none
unfolding managed Dict.get
managed-some skipped after [] held = λ h. absurd (cc)
managed-some skipped after ((key, value) ∷ keys) held =
    let rest = managed-some skipped after keys λ k kept there. held k kept (ground arith) in
    elim (Bool-cases (contains skipped key)) [
      | inl skip ↦ rw skip rest
      | inr kept ↦ rw kept (
          with_value-some key (Dict.get after key) (managed skipped after keys)
            (held key kept (ground (arith, eq_iff key key))) rest)
    ]

first_of-some : (a b : Option String) → (a ≡ none → b ≢ none) → first_of a b ≢ none
first_of-some none b h = h refl
first_of-some (some a) b h = λ e. absurd (cc)

-- Every managed variable is set.
held :
    (overrides : Dict String) (force : Option (Dict String)) (exclude : List String)
    (env : Dict String)
    → Dict.IsDistinct (forced_of force)
    → (k : String) → contains exclude k ≡ false
    → Dict.get (Dict.update (Dict.update test_env_defaults overrides) (forced_of force)) k ≢ none
    → Dict.get (layered overrides force exclude env) k ≢ none
held overrides force exclude env d k kept there =
    let defaults = Dict.update test_env_defaults overrides in
    let forced = forced_of force in
    rw (get-layered overrides force exclude env k d, kept)
      (first_of-some (Dict.get forced k) (first_of (Dict.get env k) (Dict.get defaults k))
        λ no_force.
          first_of-some (Dict.get env k) (Dict.get defaults k)
            λ no_env no_default. there (Dict.get-update defaults forced k no_force ∙ no_default))

-- After the environment is laid out, with the forced keys distinct, an excluded variable is as it
-- was, and any other one has its forced value, or what it had, or the override or default; and the
-- mapping of the managed variables is returned, with no KeyError.
pub apply_test_env-layers :
    (overrides : Dict String) (force : Option (Dict String)) (exclude : List String)
    (env : Dict String) (k : String)
    → Dict.IsDistinct (forced_of force)
    → (Dict.get (apply_test_env overrides force exclude env).0 k ≡ (
        if contains exclude k
        then Dict.get env k
        else first_of
            (Dict.get (forced_of force) k)
            (first_of (Dict.get env k) (Dict.get (Dict.update test_env_defaults overrides) k))))
      × ((apply_test_env overrides force exclude env).1 ≢ none)
unfolding apply_test_env
apply_test_env-layers overrides force exclude env k d = (
  get-layered overrides force exclude env k d,
  managed-some exclude (layered overrides force exclude env)
      (Dict.update (Dict.update test_env_defaults overrides) (forced_of force))
      (held overrides force exclude env d),
)
