-- ===== src/Http/Clients/Tests.antt =====
-- Clients of one service, over tenths of a second.
use netix_backend.Prelude.{
  ◌≡◌, refl, true, false, List, [], ◌∷◌, Option, none, some, String, ok, str_eq, if◌then◌else◌,
}
use netix_backend.Prelude.Int.{pos}
use netix_backend.Prelude.Dict.{get, set, update}
use netix_backend.Prelude.Tenths.{Tenths, tenth, tenths_floats}
use netix_backend.Env.{
  Environ, lookup, env_float, env_first, first_set, parse_bool, recognise, service_authorization,
}
use netix_backend.Discovery.{service_url}
use netix_backend.Text.{strip, lstrip, rstrip, is_space, lower}
use netix_backend.Http.Retry.{unbound, default_retries, default_backoff, init_policy}
use netix_backend.Http.Clients.{
  Client, Request, Parts, Store, CacheKey, default_limits, pool_acquire_timeout, build_headers,
  keys_of, all_keys, required_float, same_key, find, reset_client_cache,
}
use netix_backend.Http.Clients.Build.{
  construct_client, request_keys, base_url_of, cache_key, build_client,
}
use netix_backend.Http.Clients.Cache.{Call, perform, run, build_client-same, build_client_ignores}
use netix_backend.Http.Clients.Refinement
use netix_backend.Http.Clients.Refinement.{Action, call, reset, run-spec_run}

abbrev env : Environ
env name =
    if str_eq name "A_SVC_URL"
    then some "http://a"
    else if str_eq name "A_SVC_TIMEOUT"
    then some "7"
    else if str_eq name "A_SVC_AUTH"
    then some "Token a"
    else none

abbrev capitals : String → String
capitals s = if str_eq s "a" then "A" else s

abbrev by_default : Parts (Option (List String))
by_default = record {
  url = none;
  accept = none;
  auth = none;
  verify_ssl = none;
  raise_status = none;
  timeout = none;
}

abbrev request : Request Tenths
request = record {
  client_cls = record {
    qualified_name = "a.Client";
    set_httpx_client = true;
    set_async_httpx_client = false;
  };
  service = "a";
  registry_name = none;
  names = by_default;
  authorization = true;
  extra_headers = some (("X-Org", "1") ∷ []);
  cache = true;
  limits = default_limits;
  pool_timeout = pool_acquire_timeout tenths_floats;
  retries = some (pos 0);
}

abbrev first : Call Tenths
first = record {
  env = env;
  bound = unbound;
  registry = record { expires = none; urls = []; origins = [] };
  request = request;
}

abbrev second : Call Tenths
second = record first { request = record request { extra_headers = none } }

abbrev empty : Store Tenths
empty = record { clients = []; built = 0 }

abbrev client : Client Tenths
client = record {
  serial = 0;
  client_cls = request.client_cls;
  base_url = "http://a";
  headers = ("Accept", "application/json") ∷ ("Authorization", "Token a") ∷ ("X-Org", "1") ∷ [];
  verify_ssl = false;
  raise_on_unexpected_status = false;
  timeout = tenth 70;
  pool_timeout = tenth 50;
  limits = default_limits;
  transport = record {
    retries = pos 0;
    backoff_factor = tenth 5;
    retry_non_idempotent = false;
    max_retry_after = tenth 300;
  };
  has_httpx_client = true;
  has_async_httpx_client = false;
}

opened : Unit {0}
unfolding get set update lookup env_float env_first first_set parse_bool recognise
    service_authorization service_url strip lstrip rstrip is_space lower default_retries
    default_backoff init_policy build_headers keys_of all_keys required_float same_key find
    reset_client_cache construct_client request_keys base_url_of cache_key build_client
opened = tt

abbrev the_key : CacheKey
unfolding opened
the_key = cache_key tenths_floats capitals env unbound first.registry request "http://a"

abbrev filled : Store Tenths
filled = record { clients = (the_key, client) ∷ []; built = 1 }

built_first : perform tenths_floats capitals first empty ≡ (filled, ok client)
unfolding opened
built_first = refl

-- The second caller asked for no extra headers, and gets the first one's.
shared :
    Refinement.run tenths_floats capitals (call first ∷ call second ∷ []) empty
    ≡ ok client ∷ ok client ∷ []
unfolding opened
shared = refl

rebuilt :
    Refinement.run tenths_floats capitals (call first ∷ reset ∷ call second ∷ []) empty
    ≡ ok client
      ∷ ok (record client {
        serial = 1;
        headers = ("Accept", "application/json") ∷ ("Authorization", "Token a") ∷ [];
      })
      ∷ []
unfolding opened
rebuilt = refl

build_client-same_example :
    perform tenths_floats capitals second (run tenths_floats capitals (second ∷ []) filled)
    ≡ (run tenths_floats capitals (second ∷ []) filled, ok client)
build_client-same_example =
    build_client-same tenths_floats capitals first second (second ∷ []) empty filled the_key client
      (unfold opened in (refl, ("http://a", refl, refl)))
      (unfold opened in (refl, ("http://a", refl, refl))) built_first

build_client_ignores_example : perform tenths_floats capitals second filled ≡ (filled, ok client)
build_client_ignores_example =
    build_client_ignores tenths_floats capitals first none default_limits (tenth 50) (some (pos 0))
      empty filled the_key client (unfold opened in (refl, ("http://a", refl, refl))) built_first

run-spec_run_example :
    Refinement.run tenths_floats capitals (call first ∷ reset ∷ call second ∷ []) empty
    ≡ Refinement.spec_run tenths_floats capitals
        (call first ∷ reset ∷ call second ∷ [])
        (record { answers = []; built = 0 })
run-spec_run_example = run-spec_run tenths_floats capitals (call first ∷ reset ∷ call second ∷ [])
