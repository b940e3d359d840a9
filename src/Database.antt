-- ===== src/Database.antt =====
-- netix_backend/database.py: the aliases of DATABASES.
pub mod Keys
mod Tests
use netix_backend.Prelude.{
  Bool, true, false, List, [], ◌∷◌, Option, none, some, String, if◌then◌else◌, Result, ok, err,
  ◌>>=◌, or_raise,
}
use netix_backend.Prelude.Dict
use netix_backend.Prelude.Dict.{Dict}
use netix_backend.Text.{upper}
use netix_backend.Env.{Environ}

-- A KeyError of os.environ, or what a cast raises.
pub data DatabaseError : Type 0 where
  key_error : String → DatabaseError
  cast_error : String → DatabaseError

-- A read of a variable: without a default it is REQUIRED; a cast may raise.
pub record FromEnv (V : Type 0) : Type 0 where
  pub var : String
  pub default : Option V
  pub cast : Option (V → Result DatabaseError V)

-- A knob: OMIT, a read of the environment, or a literal.
pub data Value (V : Type 0) : Type 0 where
  omit : Value V
  from_env : FromEnv V → Value V
  literal : V → Value V

-- The settings' values: `of_text` is a text, `of_dict` a dictionary.
module _ {V : Type 0} (of_text : String → V) (of_dict : Dict V → V) (env : Environ) where
  abbrev pub raw_value : String → Option V → Option String → Result DatabaseError V
  raw_value var default (some raw) = ok (of_text raw)
  raw_value var none none = err (key_error var)
  raw_value var (some default) none = ok default

  abbrev pub cast_by : Option (V → Result DatabaseError V) → V → Result DatabaseError V
  cast_by none raw = ok raw
  cast_by (some cast) raw = cast raw

  unfoldable pub resolve : FromEnv V → Result DatabaseError V
  resolve r = raw_value r.var r.default (env r.var) >>= cast_by r.cast

  -- `_put`, and `_override` of a copied alias.
  unfoldable pub put : Dict V → String → Value V → Result DatabaseError (Dict V)
  put entry key omit = ok entry
  put entry key (from_env r) = resolve r >>= λ v. ok (Dict.set entry key v)
  put entry key (literal v) = ok (Dict.set entry key v)

  unfoldable pub override : Dict V → String → Value V → Result DatabaseError (Dict V)
  override entry key omit = ok (Dict.pop entry key)
  override entry key (from_env r) = resolve r >>= λ v. ok (Dict.set entry key v)
  override entry key (literal v) = ok (Dict.set entry key v)

  unfoldable pub put_all : Dict V → Dict (Value V) → Result DatabaseError (Dict V)
  put_all entry [] = ok entry
  put_all entry ((key, value) ∷ values) = put entry key value >>= λ after. put_all after values

  unfoldable pub override_all : Dict V → Dict (Value V) → Result DatabaseError (Dict V)
  override_all entry [] = ok entry
  override_all entry ((key, value) ∷ values) =
      override entry key value >>= λ after. override_all after values

  -- The members of OPTIONS; `none` is an OMIT of `prepare_threshold` or of `options`.
  abbrev pub threshold_in : Option V → Dict V → Dict V
  threshold_in none entry = entry
  threshold_in (some threshold) entry = Dict.set entry "prepare_threshold" threshold

  abbrev pub updated_by : Option (Dict V) → Dict V → Dict V
  updated_by none entry = entry
  updated_by (some extra) entry = Dict.update entry extra

  abbrev pub resolved_options :
      Option V → Value V → Option (Dict V) → Result DatabaseError (Option (Dict V))
  resolved_options threshold timeout options =
      put (threshold_in threshold []) "connect_timeout" timeout >>= λ entry.
      ok (some (updated_by options entry))

  unfoldable pub options_of :
      Option V → Value V → Option (Dict V) → Result DatabaseError (Option (Dict V))
  options_of none omit none = ok none
  options_of threshold timeout options = resolved_options threshold timeout options

  -- {key: entry[key] for key in key_order if key in entry}
  abbrev pub keep_key : Dict V → String → Option V → Dict V
  keep_key picked key none = picked
  keep_key picked key (some v) = Dict.set picked key v

  unfoldable pub picked : Dict V → List String → Dict V → Dict V
  picked entry [] found = found
  picked entry (key ∷ keys) found = picked entry keys (keep_key found key (Dict.get entry key))

  unfoldable pub ordered : Dict V → Option (List String) → Dict V
  ordered entry none = entry
  ordered entry (some key_order) = Dict.update (picked entry key_order []) entry

  -- The knobs of `postgres_database`; `none` is an OMIT, of `extra` and `key_order` None.
  pub record Knobs : Type 0 where
    pub engine : Value V
    pub name : Value V
    pub user : Value V
    pub password : Value V
    pub host : Value V
    pub port : Value V
    pub conn_max_age : Value V
    pub conn_health_checks : Value V
    pub atomic_requests : Value V
    pub disable_server_side_cursors : Value V
    pub prepare_threshold : Option V
    pub connect_timeout : Value V
    pub options : Option (Dict V)
    pub test : Value V
    pub extra : Option (Dict V)
    pub key_order : Option (List String)

  -- The keys that are put first, in the order of the calls.
  abbrev pub base_values : Knobs → Dict (Value V)
  base_values k =
      ("ENGINE", k.engine)
      ∷ ("NAME", k.name)
      ∷ ("USER", k.user)
      ∷ ("PASSWORD", k.password)
      ∷ ("HOST", k.host)
      ∷ ("PORT", k.port)
      ∷ ("CONN_MAX_AGE", k.conn_max_age)
      ∷ ("CONN_HEALTH_CHECKS", k.conn_health_checks)
      ∷ ("ATOMIC_REQUESTS", k.atomic_requests)
      ∷ ("DISABLE_SERVER_SIDE_CURSORS", k.disable_server_side_cursors)
      ∷ []

  abbrev pub put_options : Option (Dict V) → Dict V → Dict V
  put_options none entry = entry
  put_options (some options) entry = Dict.set entry "OPTIONS" (of_dict options)

  unfoldable pub postgres_database : Knobs → Result DatabaseError (Dict V)
  postgres_database k = put_all [] (base_values k) >>= λ entry.
      options_of k.prepare_threshold k.connect_timeout k.options >>= λ options.
      put (put_options options entry) "TEST" k.test >>= λ tested.
      ok (ordered (updated_by k.extra tested) k.key_order)

  abbrev pub upper_keys : Dict (Value V) → Dict (Value V)
  upper_keys [] = []
  upper_keys ((key, value) ∷ overrides) = (upper key, value) ∷ upper_keys overrides

  unfoldable pub replica_of :
      Dict V → Value V → Value V → Value V → Dict (Value V) → Result DatabaseError (Dict V)
  replica_of primary host port test overrides =
      override_all primary (("HOST", host) ∷ ("PORT", port) ∷ ("TEST", test) ∷ upper_keys overrides)
