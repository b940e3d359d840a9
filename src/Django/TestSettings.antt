-- ===== src/Django/TestSettings.antt =====
-- netix_backend/django/test_settings.py: the environment of a test run, and the settings it is laid
-- over; netix_backend/django/testing.py: the defaults of that environment.
pub mod Layers
mod Tests
use netix_backend.Prelude.{
  Bool, true, false, not, ◌&&◌, List, [], ◌∷◌, Option, none, some, String, if◌then◌else◌, contains,
}
use netix_backend.Prelude.Dict
use netix_backend.Prelude.Dict.{Dict}

abbrev pub test_env_defaults : Dict String
test_env_defaults =
    ("DJANGO_SECRET", "test-secret-key-not-for-production")
    ∷ ("DJANGO_DEBUG", "TRUE")
    ∷ ("POSTGRES_NAME", "test")
    ∷ ("POSTGRES_USER", "test")
    ∷ ("POSTGRES_PASSWORD", "test")
    ∷ ("POSTGRES_HOST", "localhost")
    ∷ ("POSTGRES_PORT", "5432")
    ∷ ("SENTINEL_ENABLED", "FALSE")
    ∷ ("REDIS_HOST", "localhost")
    ∷ ("REDIS_PORT", "6379")
    ∷ ("REDIS_DB", "0")
    ∷ ("REDIS_PASSWORD", "")
    ∷ ("CACHE_ENABLED", "FALSE")
    ∷ ("SENTRY_ENABLED", "FALSE")
    ∷ ("SESSION_CUSTOMER_FILTER", "FALSE")
    ∷ ("CSRF_TRUSTED_ORIGINS", "http://localhost:8000")
    ∷ []

unfoldable pub netix_test_settings : Option (Dict String) → Dict String
netix_test_settings none = test_env_defaults
netix_test_settings (some extra_env) = Dict.update test_env_defaults extra_env

abbrev pub kept_or_set : Dict String → String → String → Option String → Dict String
kept_or_set env key value none = Dict.set env key value
kept_or_set env key value (some present) = env

-- `os.environ.setdefault`
unfoldable pub setdefault : Dict String → String → String → Dict String
setdefault env key value = kept_or_set env key value (Dict.get env key)

unfoldable pub set_defaults : List String → Dict String → Dict String → Dict String
set_defaults skipped [] env = env
set_defaults skipped ((key, value) ∷ defaults) env =
    set_defaults skipped defaults (if contains skipped key then env else setdefault env key value)

unfoldable pub assign : List String → Dict String → Dict String → Dict String
assign skipped [] env = env
assign skipped ((key, value) ∷ forced) env =
    assign skipped forced (if contains skipped key then env else Dict.set env key value)

abbrev pub with_value : String → Option String → Option (Dict String) → Option (Dict String)
with_value key (some value) (some others) = some ((key, value) ∷ others)
with_value key _ _ = none

-- The keys that are managed, with what the environment holds; `none` is the KeyError.
unfoldable pub managed : List String → Dict String → Dict String → Option (Dict String)
managed skipped env [] = some []
managed skipped env ((key, default) ∷ keys) =
    let rest = managed skipped env keys in
    if contains skipped key then rest else with_value key (Dict.get env key) rest

abbrev pub forced_of : Option (Dict String) → Dict String
forced_of none = []
forced_of (some forced) = forced

unfoldable pub layered :
    Dict String → Option (Dict String) → List String → Dict String → Dict String
layered overrides force exclude env =
    assign exclude (forced_of force)
      (set_defaults exclude (Dict.update test_env_defaults overrides) env)

-- The environment afterwards, and the mapping that is returned.
unfoldable pub apply_test_env :
    Dict String
    → Option (Dict String)
    → List String
    → Dict String
    → Dict String × Option (Dict String)
apply_test_env overrides force exclude env =
    let after = layered overrides force exclude env in
    let merged = Dict.update (Dict.update test_env_defaults overrides) (forced_of force) in
    (after, managed exclude after merged)

-- The uppercase names of the base module over a namespace; `is_upper` is `str.isupper`.
unfoldable pub load_base_settings : {V : Type 0} → (String → Bool) → Bool → Dict V → Dict V → Dict V
load_base_settings is_upper skip_existing [] namespace = namespace
load_base_settings is_upper skip_existing ((name, value) ∷ base) namespace =
    load_base_settings is_upper skip_existing base (
      if is_upper name && not (skip_existing && contains (Dict.keys namespace) name)
      then Dict.set namespace name value
      else namespace)
