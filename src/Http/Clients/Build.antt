-- ===== src/Http/Clients/Build.antt =====
-- netix_backend/http/clients.py: `_construct_client`, `build_client` and its cache.

use netix_backend.Prelude.{
  ℕ, suc, Bool, true, false, List, ◌∷◌, Option, none, some, String, str_eq, if◌then◌else◌, Result,
  ok, err, ◌>>=◌,
}
use netix_backend.Prelude.Floats.{Floats}
use netix_backend.Env.{
  Environ, ConfigurationError, env_first, parse_bool, service_authorization, or_default,
}
use netix_backend.Discovery.{Snapshot, service_url}
use netix_backend.Http.Retry.{Bound, init_policy}
use netix_backend.Http.Retry.Request.{max_retry_after_seconds}
use netix_backend.Http.Clients.{
  default_accept, build_headers, Parts, all_keys, required_float, Client, Request, CacheKey, Store,
  find,
}

-- `upper` is `str.upper`.
module _ (f : Floats) (upper : String → String) (env : Environ) (bound : Bound f.F)
    (registry : Snapshot) where
  open f use {F, parse_float}

  abbrev auth_of : Bool → List String → Result ConfigurationError (Option String)
  auth_of false names = ok none
  auth_of true names = service_authorization env names "USER_SVC_AUTH" >>= λ auth. ok (some auth)

  unfoldable pub construct_client :
      Request F → String → Parts (List String) → ℕ → Result ConfigurationError (Client F)
  construct_client request base_url keys serial = do
    accept ← env_first env keys.accept (some default_accept) false
    verify_ssl ← env_first env keys.verify_ssl none false
    raise_on_unexpected_status ← env_first env keys.raise_status none false
    timeout ← required_float parse_float env keys.timeout
    auth ← auth_of request.authorization keys.auth
    transport ← init_policy f env bound request.retries none false (max_retry_after_seconds f)
    ok (record {
      serial = serial;
      client_cls = request.client_cls;
      base_url = base_url;
      headers = build_headers (or_default "" accept) auth request.extra_headers;
      verify_ssl = parse_bool verify_ssl false;
      raise_on_unexpected_status = parse_bool raise_on_unexpected_status false;
      timeout = timeout;
      pool_timeout = request.pool_timeout;
      limits = request.limits;
      transport = transport;
      has_httpx_client = request.client_cls.set_httpx_client;
      has_async_httpx_client = request.client_cls.set_async_httpx_client;
    })

  abbrev registered : Option String → Option String
  registered none = none
  registered (some name) = if str_eq name "" then none else service_url env registry name none

  abbrev url_or : Option String → List String → Result ConfigurationError String
  url_or (some url) names = ok url
  url_or none names = env_first env names none true >>= λ url. ok (or_default "" url)

  -- `keys` and `base_url`
  unfoldable pub request_keys : Request F → Parts (List String)
  request_keys request = all_keys request.names (upper request.service)

  unfoldable pub base_url_of : Request F → Result ConfigurationError String
  base_url_of request = url_or (registered request.registry_name) (request_keys request).url

  unfoldable pub cache_key : Request F → String → CacheKey
  cache_key request base_url = record {
    client_cls = request.client_cls.qualified_name;
    service = upper request.service;
    authorization = request.authorization;
    keys = request_keys request;
    base_url = base_url;
  }

  abbrev pub Built : Type 0
  Built = Store F × Result ConfigurationError (Client F)

  -- A client that was built, outside the cache or in it.
  abbrev pub keep : Option CacheKey → Store F → Result ConfigurationError (Client F) → Built
  keep key s (err e) = (s, err e)
  keep none s (ok client) = (record s { built = suc s.built }, ok client)
  keep (some key) s (ok client) =
      (record { clients = (key, client) ∷ s.clients; built = suc s.built }, ok client)

  abbrev pub cached : Request F → String → Store F → Option (Client F) → Built
  cached request base_url s (some client) = (s, ok client)
  cached request base_url s none =
      keep (some (cache_key request base_url)) s
        (construct_client request base_url (request_keys request) s.built)

  -- `if not cache`
  abbrev pub by_cache : Request F → String → Store F → Bool → Built
  by_cache request base_url s false =
      keep none s (construct_client request base_url (request_keys request) s.built)
  by_cache request base_url s true =
      cached request base_url s (find s.clients (cache_key request base_url))

  abbrev pub at_url : Request F → Store F → Result ConfigurationError String → Built
  at_url request s (err e) = (s, err e)
  at_url request s (ok base_url) = by_cache request base_url s request.cache

  unfoldable pub build_client : Request F → Store F → Built
  build_client request s = at_url request s (base_url_of request)
