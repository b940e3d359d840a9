-- ===== src/Django/TestSettings/Tests.antt =====
-- A test run over an environment that names a host.
use netix_backend.Prelude.{String, ◌≡◌, ◌≢◌, refl, true, [], ◌∷◌, none, some, String, contains}
use netix_backend.Prelude.Dict
use netix_backend.Prelude.Dict.{Dict}
use netix_backend.Django.TestSettings.{apply_test_env, test_env_defaults, load_base_settings}
use netix_backend.Django.TestSettings.Layers.{first_of, apply_test_env-layers}

abbrev exported : Dict String
exported = ("REDIS_HOST", "redis.internal") ∷ ("POSTGRES_HOST", "db.internal") ∷ []

abbrev pinned : Dict String
pinned = ("REDIS_HOST", "localhost") ∷ []

apply_test_env-layers_example :
    (Dict.get (apply_test_env [] (some pinned) ("DJANGO_SECRET" ∷ []) exported).0 "REDIS_HOST"
      ≡ first_of (Dict.get pinned "REDIS_HOST") (
          first_of
            (Dict.get exported "REDIS_HOST")
            (Dict.get (Dict.update test_env_defaults []) "REDIS_HOST")))
    × ((apply_test_env [] (some pinned) ("DJANGO_SECRET" ∷ []) exported).1 ≢ none)
apply_test_env-layers_example =
    apply_test_env-layers [] (some pinned) ("DJANGO_SECRET" ∷ []) exported "REDIS_HOST"
      (unfold Dict.get in (refl, tt))

-- A name that stands in the namespace is kept where existing ones are.
existing_kept :
    load_base_settings {V = String}
      (λ name. contains ("DEBUG" ∷ "CACHES" ∷ []) name)
      true
      (("DEBUG", "base") ∷ ("CACHES", "base") ∷ ("helper", "base") ∷ [])
      (("DEBUG", "test") ∷ [])
    ≡ (("DEBUG", "test") ∷ ("CACHES", "base") ∷ [])
unfolding load_base_settings Dict.set
existing_kept = refl
