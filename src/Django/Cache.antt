-- ===== src/Django/Cache.antt =====
-- netix_backend/django/cache.py: CACHES on one Redis or behind sentinels, and the cache's times.
mod Sentinels
mod Tests
use Prim.Native.String
use netix_backend.Prelude.{
  ℕ, Bool, true, false, not, List, [], ◌∷◌, map, Option, none, some, String, str_eq, if◌then◌else◌,
  Result, ok, err, ◌>>=◌,
}
use netix_backend.Prelude.Int.{ℤ, pos, ◌*ℤ◌}
use netix_backend.Text.{strip}
use netix_backend.Text.Show.{show_int}
use netix_backend.Text.Split.{split}
use netix_backend.Env.{Environ, ConfigurationError, env_int, env_bool, flag}

abbrev pub redis_cache_backend : String
redis_cache_backend = "django_redis.cache.RedisCache"

abbrev pub sentinel_connection_factory : String
sentinel_connection_factory = "django_redis.pool.SentinelConnectionFactory"

abbrev pub default_connection_factory : String
default_connection_factory = "django_redis.pool.ConnectionFactory"

abbrev pub sentinel_client : String
sentinel_client = "django_redis.client.SentinelClient"

abbrev pub default_client : String
default_client = "django_redis.client.DefaultClient"

abbrev pub sentinel_connection_pool : String
sentinel_connection_pool = "redis.sentinel.SentinelConnectionPool"

pub data CacheError : Type 0 where
  missing_variable : String → CacheError
  no_sentinel_hosts : CacheError

-- An argument that may be a text or an integer.
pub data Argument : Type 0 where
  text : String → Argument
  int : ℤ → Argument

pub data Hosts : Type 0 where
  listed : List String → Hosts
  joined : String → Hosts

-- The OPTIONS that only a cache behind sentinels has.
pub record SentinelOptions : Type 0 where
  pub sentinels : List (String × String)
  pub connection_pool_class : String
  pub sentinel_password : String

-- The cache of one alias.
pub record CacheBlock : Type 0 where
  pub alias : String
  pub backend : String
  pub location : String
  pub password : String
  pub ignore_exceptions : Bool
  pub client_class : String
  pub sentinel_options : Option SentinelOptions

pub record RedisCacheSettings : Type 0 where
  pub caches : CacheBlock
  pub sentinels : List (String × String)
  pub sentinel_hosts : List String
  pub connection_factory : String
  pub ignore_exceptions : Bool
  pub log_ignored_exceptions : Bool
  pub logger_name : String

-- The arguments of `redis_caches`; `none` is None.
pub record Arguments : Type 0 where
  pub sentinel_enabled : Option Bool
  pub strict : Bool
  pub alias : String
  pub db : Option Argument
  pub password : Option String
  pub host : Option String
  pub port : Option Argument
  pub sentinel_service : Option String
  pub sentinel_hosts : Option Hosts
  pub sentinel_port : Option Argument
  pub ignore_exceptions : Bool
  pub log_ignored_exceptions : Bool
  pub logger_name : String

abbrev read_or : String → String → Bool → Option String → Result CacheError String
read_or name fallback strict (some value) = ok value
read_or name fallback true none = err (missing_variable name)
read_or name fallback false none = ok fallback

-- `_env`: os.environ as it is, empty texts included.
unfoldable pub env_exact : Environ → String → Bool → String → Result CacheError String
env_exact env name strict fallback = read_or name fallback strict (env name)

abbrev shown : Argument → String
shown (text s) = s
shown (int n) = show_int n

-- `_value`
unfoldable pub value_of :
    Environ → Option Argument → String → Bool → String → Result CacheError String
value_of env none name strict fallback = env_exact env name strict fallback
value_of env (some explicit) name strict fallback = ok (shown explicit)

abbrev pub as_argument : Option String → Option Argument
as_argument none = none
as_argument (some s) = some (text s)

-- [host.strip() for host in hosts if host.strip()]
abbrev pub stripped : List String → List String
stripped [] = []
stripped (host ∷ hosts) =
    let rest = stripped hosts in if str_eq (strip host) "" then rest else strip host ∷ rest

abbrev pub host_list : Hosts → List String
host_list (listed hosts) = hosts
host_list (joined hosts) = split b',' hosts

abbrev pub raw_hosts : Environ → Option Hosts → Bool → Result CacheError Hosts
raw_hosts env (some hosts) strict = ok hosts
raw_hosts env none strict =
    env_exact env "SENTINEL_HOST" strict "localhost" >>= λ host. ok (joined host)

unfoldable pub resolve_sentinel_hosts :
    Environ → Option Hosts → Bool → Result CacheError (List String)
resolve_sentinel_hosts env sentinel_hosts strict =
    raw_hosts env sentinel_hosts strict >>= λ raw. ok (stripped (host_list raw))

-- `_sentinel_enabled`, where the argument is None.
abbrev enabled_by : Environ → Bool → Result CacheError Bool
enabled_by env true = env_exact env "SENTINEL_ENABLED" true "" >>= λ value. ok (str_eq value "TRUE")
enabled_by env false = ok (env_bool env "SENTINEL_ENABLED" (flag false))

unfoldable pub sentinel_enabled : Environ → Option Bool → Bool → Result CacheError Bool
sentinel_enabled env (some enabled) strict = ok enabled
sentinel_enabled env none strict = enabled_by env strict

-- redis://{host}/{db}
abbrev located : String → String → String
located host db = String.◌++◌ "redis://" (String.◌++◌ host (String.◌++◌ "/" db))

abbrev some_hosts : List String → Result CacheError (List String)
some_hosts [] = err no_sentinel_hosts
some_hosts (host ∷ hosts) = ok (host ∷ hosts)

abbrev with_port : String → String → String × String
with_port port host = (host, port)

-- Either branch, behind the database and the password.
unfoldable pub cache_settings :
    Environ → Arguments → Bool → String → String → Result CacheError RedisCacheSettings
cache_settings env a true db password = do
  hosts ← resolve_sentinel_hosts env a.sentinel_hosts a.strict >>= some_hosts
  port ← value_of env a.sentinel_port "SENTINEL_PORT" a.strict "26379"
  service ← value_of env (as_argument a.sentinel_service) "SENTINEL_SERVICE" a.strict "mymaster"
  ok (record {
    caches = record {
      alias = a.alias;
      backend = redis_cache_backend;
      location = located service db;
      password = password;
      ignore_exceptions = a.ignore_exceptions;
      client_class = sentinel_client;
      sentinel_options = some (record {
        sentinels = map (with_port port) hosts;
        connection_pool_class = sentinel_connection_pool;
        sentinel_password = password;
      });
    };
    sentinels = map (with_port port) hosts;
    sentinel_hosts = hosts;
    connection_factory = sentinel_connection_factory;
    ignore_exceptions = a.ignore_exceptions;
    log_ignored_exceptions = a.log_ignored_exceptions;
    logger_name = a.logger_name;
  })
cache_settings env a false db password = do
  host ← value_of env (as_argument a.host) "REDIS_HOST" a.strict "localhost"
  port ← value_of env a.port "REDIS_PORT" a.strict "6379"
  ok (record {
    caches = record {
      alias = a.alias;
      backend = redis_cache_backend;
      location = located (String.◌++◌ host (String.◌++◌ ":" port)) db;
      password = password;
      ignore_exceptions = a.ignore_exceptions;
      client_class = default_client;
      sentinel_options = none;
    };
    sentinels = [];
    sentinel_hosts = [];
    connection_factory = default_connection_factory;
    ignore_exceptions = a.ignore_exceptions;
    log_ignored_exceptions = a.log_ignored_exceptions;
    logger_name = a.logger_name;
  })

unfoldable pub redis_caches : Environ → Arguments → Result CacheError RedisCacheSettings
redis_caches env a = do
  enabled ← sentinel_enabled env a.sentinel_enabled a.strict
  db ← value_of env a.db "REDIS_DB" a.strict "0"
  password ← value_of env (as_argument a.password) "REDIS_PASSWORD" a.strict ""
  cache_settings env a enabled db password

pub record CacheTtls : Type 0 where
  pub ttl : ℤ
  pub long_ttl : Option ℤ
  pub enabled : Bool

abbrev long_of : Option ℤ → Option ℤ → ℤ → Option ℤ
long_of (some long_ttl) factor ttl = some long_ttl
long_of none none ttl = none
long_of none (some factor) ttl = some (ttl *ℤ factor)

abbrev ttl_of : Environ → Option ℤ → ℤ → Result ConfigurationError ℤ
ttl_of env (some ttl) default = ok ttl
ttl_of env none default = env_int env "CACHE_TTL" default

abbrev enabled_of : Environ → Option Bool → Bool
enabled_of env (some enabled) = enabled
enabled_of env none = env_bool env "CACHE_ENABLED" (flag false)

unfoldable pub cache_ttls :
    Environ → Option ℤ → ℤ → Option ℤ → Option ℤ → Option Bool → Result ConfigurationError CacheTtls
cache_ttls env ttl default_ttl long_ttl long_ttl_factor enabled =
    ttl_of env ttl default_ttl >>= λ resolved. ok (record {
      ttl = resolved;
      long_ttl = long_of long_ttl long_ttl_factor resolved;
      enabled = enabled_of env enabled;
    })
