-- ===== src/Django/Cache/Tests.antt =====
-- Caches behind sentinels and on one Redis.
use netix_backend.Prelude.{
  ◌≡◌, refl, true, false, [], ◌∷◌, none, some, ok, err, str_eq, if◌then◌else◌,
}
use netix_backend.Prelude.Int.{pos, ◌*ℤ◌}
use netix_backend.Text.{strip, lstrip, rstrip, is_space}
use netix_backend.Text.Split.{split}
use netix_backend.Env.{Environ, lookup, env_int, env_bool, parse_bool}
use netix_backend.Django.Cache.{
  no_sentinel_hosts, RedisCacheSettings, Arguments, joined, env_exact, value_of,
  resolve_sentinel_hosts, sentinel_enabled, cache_settings, redis_caches, cache_ttls,
  sentinel_client, sentinel_connection_factory, sentinel_connection_pool, redis_cache_backend,
}

abbrev env : Environ
env name = if str_eq name "SENTINEL_ENABLED" then some "TRUE" else none

abbrev arguments : Arguments
arguments = record {
  sentinel_enabled = none;
  strict = false;
  alias = "default";
  db = none;
  password = some "p";
  host = none;
  port = none;
  sentinel_service = none;
  sentinel_hosts = some (joined "a, ,b ");
  sentinel_port = none;
  ignore_exceptions = false;
  log_ignored_exceptions = true;
  logger_name = "cache";
}

opened : Unit {0}
unfolding strip lstrip rstrip is_space split lookup env_int env_bool parse_bool env_exact value_of
    resolve_sentinel_hosts sentinel_enabled cache_settings redis_caches cache_ttls ◌*ℤ◌
opened = tt

abbrev behind : Arguments
behind = record arguments { sentinel_enabled = some true }

abbrev settings : RedisCacheSettings
settings = record {
  caches = record {
    alias = "default";
    backend = redis_cache_backend;
    location = "redis://mymaster/0";
    password = "p";
    ignore_exceptions = false;
    client_class = sentinel_client;
    sentinel_options = some (record {
      sentinels = ("a", "26379") ∷ ("b", "26379") ∷ [];
      connection_pool_class = sentinel_connection_pool;
      sentinel_password = "p";
    });
  };
  sentinels = ("a", "26379") ∷ ("b", "26379") ∷ [];
  sentinel_hosts = "a" ∷ "b" ∷ [];
  connection_factory = sentinel_connection_factory;
  ignore_exceptions = false;
  log_ignored_exceptions = true;
  logger_name = "cache";
}

two_hosts : redis_caches env behind ≡ ok settings
unfolding opened
two_hosts = refl

blank_hosts :
    redis_caches env (record behind { sentinel_hosts = some (joined " ,") }) ≡ err no_sentinel_hosts
unfolding opened
blank_hosts = refl

long :
    cache_ttls env none (pos 60) none (some (pos 24)) none
    ≡ ok (record { ttl = pos 60; long_ttl = some (pos 1440); enabled = false })
unfolding opened
long = refl
