-- ===== src/Discovery.antt =====
-- netix_backend/discovery.py: the live registry of peers, cached in the process.
pub mod Cache
mod Tests
use netix_backend.Prelude.{
  ℕ, ◌+◌, Bool, true, false, ◌&&◌, List, [], ◌∷◌, Option, none, some, String, str_eq, if◌then◌else◌,
  leb,
}
use netix_backend.Prelude.Dict
use netix_backend.Prelude.Dict.{Dict}
use netix_backend.Text.{rstrip_char}
use netix_backend.Env.{Environ, lookup}

-- A service's entry in the registry: a key that is missing, null or empty is `none`.
pub record Service : Type 0 where
  pub name : String
  pub kind : String
  pub base_url : Option String
  pub internal_base_url : Option String

-- The seconds that a snapshot lasts, and the clock, in seconds.
abbrev pub cache_seconds : ℕ
cache_seconds = 60

-- The registry as it is known: `expires` is `none` before the first lookup.
pub record Snapshot : Type 0 where
  pub expires : Option ℕ
  pub urls : Dict String
  pub origins : List String

abbrev pub empty_snapshot : Snapshot
empty_snapshot = record { expires = none; urls = []; origins = [] }

-- The URL of the discovery route; `urljoin base` is the route beside `base`.
abbrev pub joined : (String → String) → Option String → Option String
joined urljoin none = none
joined urljoin (some url) = some (urljoin url)

unfoldable pub discovery_url : (String → String) → Environ → Option String
discovery_url urljoin env = joined urljoin (lookup env "UPDATE_SERVICE_REGISTRATION_URL")

-- {entry["name"]: entry["internal_base_url"] …}: a later entry of a name takes its place.
abbrev pub put_url : Dict String → String → Option String → Dict String
put_url urls name none = urls
put_url urls name (some url) = Dict.set urls name url

unfoldable pub urls_from : Dict String → List Service → Dict String
urls_from urls [] = urls
urls_from urls (entry ∷ services) =
    urls_from (put_url urls entry.name entry.internal_base_url) services

-- The frontends' origins; a set, in a list that may name one twice.
abbrev pub origin_of : Bool → Option String → List String → List String
origin_of false url rest = rest
origin_of true none rest = rest
origin_of true (some url) rest = rstrip_char b'/' url ∷ rest

unfoldable pub origins_of : List Service → List String
origins_of [] = []
origins_of (entry ∷ services) =
    origin_of (str_eq entry.kind "frontend") entry.base_url (origins_of services)

-- What a request to the registry gives: its services, or any exception.
abbrev pub Registry : Type 0
Registry = (url token environment : String) → Option (List Service)

abbrev pub parsed : Option (List Service) → Option (Dict String × List String)
parsed none = none
parsed (some services) = some (urls_from [] services, origins_of services)

abbrev pub asked :
    Registry → Option String → Option String → Option String → Option (Dict String × List String)
asked registry (some url) (some token) (some environment) = parsed (registry url token environment)
asked registry _ _ _ = none

unfoldable pub fetch : (String → String) → Registry → Environ → Option (Dict String × List String)
fetch urljoin registry env =
    asked registry (discovery_url urljoin env) (lookup env "SERVICE_REGISTRATION_TOKEN")
      (lookup env "SERVICE_REGISTRATION_ENVIRONMENT")

-- `_refresh`, with what `_fetch` gives.
unfoldable pub refresh : Option (Dict String × List String) → Snapshot → Snapshot
refresh none s = s
refresh (some (urls, origins)) s = record s { urls = urls; origins = origins }

-- What `_current` does beside returning the snapshot: nothing, or it starts a thread.
pub data Started : Type 0 where
  nothing : Started
  refresh_thread : Started

abbrev pub renewed : ℕ → Snapshot → Snapshot
renewed now s = record s { expires = some (now + cache_seconds) }

-- `_current` at the time `now`; `fetched` is what a fetch at this moment would give. A thread's
-- own `refresh` comes later.
abbrev pub current_at :
    Option ℕ → ℕ → Option (Dict String × List String) → Snapshot → Snapshot × Started
current_at none now fetched s = (refresh fetched (renewed now s), nothing)
current_at (some expires) now fetched s =
    if leb expires now then (renewed now s, refresh_thread) else (s, nothing)

unfoldable pub current : ℕ → Option (Dict String × List String) → Snapshot → Snapshot × Started
current now fetched s = current_at s.expires now fetched s

-- `service_url` over the snapshot that the lookup gives; "" counts as no URL.
abbrev pub fallback : Environ → Option String → Option String
fallback env none = none
fallback env (some name) = if str_eq name "" then none else lookup env name

abbrev pub live_or : Option String → Option String → Option String
live_or none other = other
live_or (some url) other = if str_eq url "" then other else some url

unfoldable pub service_url : Environ → Snapshot → String → Option String → Option String
service_url env s name fallback_env = live_or (Dict.get s.urls name) (fallback env fallback_env)

unfoldable pub reset_discovery_cache : Snapshot → Snapshot
reset_discovery_cache s = empty_snapshot
