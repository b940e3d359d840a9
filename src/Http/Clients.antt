-- ===== src/Http/Clients.antt =====
-- netix_backend/http/clients.py: generated clients, configured from the environment and kept for the
-- process.
pub mod Keys
pub mod Build
pub mod Cache
pub mod Refinement
mod Tests
use Prim.Native.String
use netix_backend.Prelude.{
  ℕ, suc, ◌&&◌, Bool, true, false, not, List, [], ◌∷◌, Option, none, some, String, str_eq,
  if◌then◌else◌, Result, ok, err, ◌>>=◌, or_raise,
}
use netix_backend.Prelude.Int.{ℤ}
use netix_backend.Prelude.Floats.{Floats}
use netix_backend.Prelude.Dict.{Dict, set, update}
use netix_backend.Env.{
  Environ, ConfigurationError, not_a_number, env_first, parse_bool, service_authorization,
  or_default,
}
use netix_backend.Discovery.{Snapshot, service_url}
use netix_backend.Http.Retry.{Policy, Bound, init_policy}
use netix_backend.Http.Retry.Request.{max_retry_after_seconds}

abbrev pub default_accept : String
default_accept = "application/json"

-- httpx.Limits
pub record Limits : Type 0 where
  pub max_connections : ℕ
  pub max_keepalive_connections : ℕ

abbrev pub default_limits : Limits
default_limits = record { max_connections = 20; max_keepalive_connections = 10 }

abbrev pub pool_acquire_timeout : (f : Floats) → f.F
pool_acquire_timeout f = f.tenths 50

-- `authorization` and `extra` count where they are true.
abbrev authorized : Option String → Dict String → Dict String
authorized none headers = headers
authorized (some authorization) headers =
    if str_eq authorization "" then headers else set headers "Authorization" authorization

abbrev extended : Option (Dict String) → Dict String → Dict String
extended none headers = headers
extended (some extra) headers = update headers extra

unfoldable pub build_headers : String → Option String → Option (Dict String) → Dict String
build_headers accept authorization extra =
    extended extra (authorized authorization (("Accept", accept) ∷ []))

-- The names of one part of the configuration, or of each.
pub record Parts (A : Type 0) : Type 0 where
  pub url : A
  pub accept : A
  pub auth : A
  pub verify_ssl : A
  pub raise_status : A
  pub timeout : A

abbrev pub env_suffixes : Parts String
env_suffixes = record {
  url = "URL";
  accept = "HEADERS";
  auth = "AUTH";
  verify_ssl = "VERIFY_SSL";
  raise_status = "RAISE_ON_UNEXPECTED_STATUS";
  timeout = "TIMEOUT";
}

-- f"{service}_SVC_{suffix}"
abbrev pub variable : String → String → String
variable service suffix = String.◌++◌ service (String.◌++◌ "_SVC_" suffix)

-- `_keys`, for a service in upper case.
unfoldable pub keys_of : Option (List String) → String → String → List String
keys_of (some (name ∷ names)) service suffix = name ∷ names
keys_of _ service suffix = variable service suffix ∷ []

unfoldable pub all_keys : Parts (Option (List String)) → String → Parts (List String)
all_keys explicit service = record {
  url = keys_of explicit.url service env_suffixes.url;
  accept = keys_of explicit.accept service env_suffixes.accept;
  auth = keys_of explicit.auth service env_suffixes.auth;
  verify_ssl = keys_of explicit.verify_ssl service env_suffixes.verify_ssl;
  raise_status = keys_of explicit.raise_status service env_suffixes.raise_status;
  timeout = keys_of explicit.timeout service env_suffixes.timeout;
}

abbrev first_of : List String → String
first_of [] = ""
first_of (name ∷ names) = name

unfoldable pub required_float :
    {F : Type 0} → (String → Option F) → Environ → List String → Result ConfigurationError F
required_float parse_float env names = env_first env names none true >>= λ raw.
    or_raise (not_a_number (first_of names) (or_default "" raw)) (parse_float (or_default "" raw))

-- A generated class, by its qualified name, and the setters that it has.
pub record ClientClass : Type 0 where
  pub qualified_name : String
  pub set_httpx_client : Bool
  pub set_async_httpx_client : Bool

-- A client as it was built: the `serial` tells objects apart. `transport` is the policy of the
-- transports, which the inner clients share the rest with.
pub record Client (F : Type 0) : Type 0 where
  pub serial : ℕ
  pub client_cls : ClientClass
  pub base_url : String
  pub headers : Dict String
  pub verify_ssl : Bool
  pub raise_on_unexpected_status : Bool
  pub timeout : F
  pub pool_timeout : F
  pub limits : Limits
  pub transport : Policy F
  -- whether the shared sync and async clients were set
  pub has_httpx_client : Bool
  pub has_async_httpx_client : Bool

-- The arguments of `build_client`.
pub record Request (F : Type 0) : Type 0 where
  pub client_cls : ClientClass
  pub service : String
  pub registry_name : Option String
  pub names : Parts (Option (List String))
  pub authorization : Bool
  pub extra_headers : Option (Dict String)
  pub cache : Bool
  pub limits : Limits
  pub pool_timeout : F
  pub retries : Option ℤ

pub record CacheKey : Type 0 where
  pub client_cls : String
  pub service : String
  pub authorization : Bool
  pub keys : Parts (List String)
  pub base_url : String

-- `_client_cache`, and how many clients were built.
pub record Store (F : Type 0) : Type 0 where
  pub clients : List (CacheKey × Client F)
  pub built : ℕ

abbrev pub same_names : List String → List String → Bool
same_names [] [] = true
same_names (a ∷ rest) (b ∷ others) = str_eq a b && same_names rest others
same_names _ _ = false

abbrev pub same_bool : Bool → Bool → Bool
same_bool true b = b
same_bool false b = not b

abbrev pub same_parts : Parts (List String) → Parts (List String) → Bool
same_parts p q =
    same_names p.url q.url
    && (same_names p.accept q.accept
        && (same_names p.auth q.auth
            && (same_names p.verify_ssl q.verify_ssl
                && (same_names p.raise_status q.raise_status && same_names p.timeout q.timeout))))

-- `==` on the tuples.
unfoldable pub same_key : CacheKey → CacheKey → Bool
same_key j k =
    str_eq j.client_cls k.client_cls
    && (str_eq j.service k.service
        && (same_bool j.authorization k.authorization
            && (same_parts j.keys k.keys && str_eq j.base_url k.base_url)))

unfoldable pub find : {F : Type 0} → List (CacheKey × Client F) → CacheKey → Option (Client F)
find [] k = none
find ((j, c) ∷ cs) k = if same_key j k then some c else find cs k

unfoldable pub reset_client_cache : {F : Type 0} → Store F → Store F
reset_client_cache s = record s { clients = [] }
