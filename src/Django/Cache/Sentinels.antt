-- ===== src/Django/Cache/Sentinels.antt =====
-- What the settings of a cache have in common on either branch.
use netix_backend.Prelude.{
  ◌≡◌, ◌≢◌, ◌⊎◌, inl, inr, refl, subst, Bool, true, false, List, [], ◌∷◌, map, String, str_eq,
  eq_iff, Result, ok, err, ◌>>=◌, ok_inj, All, Bool-cases, arith,
}
use netix_backend.Text.{strip}
use netix_backend.Env.{Environ}
use netix_backend.Django.Cache.{
  sentinel_enabled, Arguments, RedisCacheSettings, sentinel_client, default_client,
  sentinel_connection_factory, default_connection_factory, stripped, some_hosts, raw_hosts,
  host_list, as_argument, with_port, value_of, resolve_sentinel_hosts, cache_settings, redis_caches,
}

pub bind_ok :
    {E A B : Type 0} (r : Result E A) (k : A → Result E B) (b : B)
    → (r >>= k) ≡ ok b
    → (a : A) × (r ≡ ok a) × (k a ≡ ok b)
bind_ok (ok a) k b e = (a, refl, e)
bind_ok (err x) k b e = absurd (cc)

-- The hosts are named, and each is paired with the one port, in the settings and in OPTIONS.
abbrev pub IsSentinel : RedisCacheSettings → Type 0
IsSentinel s =
    (s.connection_factory ≡ sentinel_connection_factory)
    × (s.caches.client_class ≡ sentinel_client)
    × (s.sentinel_hosts ≢ [])
    × All (λ host. host ≢ "") s.sentinel_hosts
    × ((port : String) × (s.sentinels ≡ map (with_port port) s.sentinel_hosts))

abbrev pub IsSingle : RedisCacheSettings → Type 0
IsSingle s =
    (s.connection_factory ≡ default_connection_factory)
    × (s.caches.client_class ≡ default_client)
    × (s.sentinel_hosts ≡ [])
    × (s.sentinels ≡ [])

stripped-All : (hosts : List String) → All (λ host. host ≢ "") (stripped hosts)
stripped-All [] = tt
stripped-All (host ∷ hosts) = elim (Bool-cases (str_eq (strip host) "")) [
  | inl blank ↦ rw blank (stripped-All hosts)
  | inr named ↦ rw named ((λ e. ground (arith, eq_iff (strip host) "")), stripped-All hosts)
]

some_hosts-named :
    (hosts named : List String) → some_hosts hosts ≡ ok named → (hosts ≡ named) × (named ≢ [])
some_hosts-named [] named e = absurd (cc)
some_hosts-named (host ∷ hosts) named e = (ok_inj e, λ empty. cc)

resolved-All :
    (env : Environ) (a : Arguments) (hosts : List String)
    → resolve_sentinel_hosts env a.sentinel_hosts a.strict ≡ ok hosts
    → All (λ host. host ≢ "") hosts
unfolding resolve_sentinel_hosts
resolved-All env a hosts e =
    let (raw, e1, e2) = bind_ok (raw_hosts env a.sentinel_hosts a.strict) _ hosts e in
    subst (All (λ host. host ≢ "")) (ok_inj e2) (stripped-All (host_list raw))

by_branch :
    (env : Environ) (a : Arguments) (enabled : Bool) (db password : String) (s : RedisCacheSettings)
    → cache_settings env a enabled db password ≡ ok s
    → IsSentinel s ⊎ IsSingle s
unfolding cache_settings
by_branch env a true db password s e =
    let (hosts, e1, e2) =
      bind_ok (resolve_sentinel_hosts env a.sentinel_hosts a.strict >>= some_hosts) _ s e in
    let (found, e3, e4) =
      bind_ok (resolve_sentinel_hosts env a.sentinel_hosts a.strict) some_hosts hosts e1 in
    let (same, named) = some_hosts-named found hosts e4 in
    let (port, e5, e6) =
      bind_ok (value_of env a.sentinel_port "SENTINEL_PORT" a.strict "26379") _ s e2 in
    let (service, e7, e8) =
      bind_ok (value_of env (as_argument a.sentinel_service) "SENTINEL_SERVICE" a.strict "mymaster")
        _ s e6 in
    inl (
      subst IsSentinel (ok_inj e8) (
        refl,
        refl,
        named,
        subst (All (λ host. host ≢ "")) same (resolved-All env a found e3),
        (port, refl),
      ))
by_branch env a false db password s e =
    let (host, e1, e2) =
      bind_ok (value_of env (as_argument a.host) "REDIS_HOST" a.strict "localhost") _ s e in
    let (port, e3, e4) = bind_ok (value_of env a.port "REDIS_PORT" a.strict "6379") _ s e2 in
    inr (subst IsSingle (ok_inj e4) (refl, refl, refl, refl))

-- Settings that are built stand on one side or on the other: behind sentinels, with at least one
-- host, no host blank, and every host paired with one port; or on a single Redis without any host
-- or sentinel.
pub redis_caches-sides :
    (env : Environ) (a : Arguments) (s : RedisCacheSettings)
    → redis_caches env a ≡ ok s
    → IsSentinel s ⊎ IsSingle s
unfolding redis_caches
redis_caches-sides env a s e =
    let (enabled, e1, e2) = bind_ok (sentinel_enabled env a.sentinel_enabled a.strict) _ s e in
    let (db, e3, e4) = bind_ok (value_of env a.db "REDIS_DB" a.strict "0") _ s e2 in
    let (password, e5, e6) =
      bind_ok (value_of env (as_argument a.password) "REDIS_PASSWORD" a.strict "") _ s e4 in
    by_branch env a enabled db password s e6
