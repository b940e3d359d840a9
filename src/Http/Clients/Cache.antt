-- ===== src/Http/Clients/Cache.antt =====
-- The identity of a cached client: once kept, it is not replaced.
use netix_backend.Prelude.{
  suc, ◌≡◌, inl, inr, refl, sym, ap, ◌∙◌, subst, Bool, true, false, List, [], ◌∷◌, Option, none,
  some, String, Result, ok, err, ok_inj, Bool-cases,
}
use netix_backend.Prelude.Floats.{Floats}
use netix_backend.Prelude.Int.{ℤ}
use netix_backend.Prelude.Dict.{Dict}
use netix_backend.Env.{Environ, ConfigurationError}
use netix_backend.Discovery.{Snapshot}
use netix_backend.Http.Retry.{Bound}
use netix_backend.Http.Clients.{Client, Request, CacheKey, Store, same_key, find, Limits}
use netix_backend.Http.Clients.Build.{
  request_keys, base_url_of, cache_key, keep, cached, by_cache, at_url, build_client,
}
use netix_backend.Http.Clients.Keys.{some_inj, same_key→eq, same_key-same}

-- A call of `build_client`, in the environment and with the registry of its time.
pub record Call (F : Type 0) : Type 0 where
  pub env : Environ
  pub bound : Bound F
  pub registry : Snapshot
  pub request : Request F

module _ (f : Floats) (upper : String → String) where
  -- One call, and a run of calls without a reset.
  abbrev pub perform : Call f.F → Store f.F → Store f.F × Result ConfigurationError (Client f.F)
  perform c s = build_client f upper c.env c.bound c.registry c.request s

  abbrev pub run : List (Call f.F) → Store f.F → Store f.F
  run [] s = s
  run (c ∷ cs) s = run cs (perform c s).0

  -- The key that a call looks for, where it has a base URL and uses the cache.
  abbrev pub LooksFor : Call f.F → CacheKey → Type 0
  LooksFor c key =
      (c.request.cache ≡ true)
      × ((url : String) × (base_url_of f upper c.env c.bound c.registry c.request ≡ ok url)
          × (cache_key f upper c.env c.bound c.registry c.request url ≡ key))

  module _ (env : Environ) (bound : Bound f.F) (registry : Snapshot) (request : Request f.F) where
    keep-find :
        (own : Option CacheKey) (s : Store f.F) (r : Result ConfigurationError (Client f.F))
        (k : CacheKey) (c : Client f.F)
        → ((j : CacheKey) → own ≡ some j → find s.clients j ≡ none)
        → find s.clients k ≡ some c
        → find (keep f upper env bound registry own s r).0.clients k ≡ some c
    unfolding find
    keep-find own s (err e) k c fresh h = h
    keep-find none s (ok new) k c fresh h = h
    keep-find (some j) s (ok new) k c fresh h = elim (Bool-cases (same_key j k)) [
      | inl hit ↦
          absurd (clash (sym (fresh j refl) ∙ ap (find s.clients) (same_key→eq j k hit) ∙ h))
      | inr miss ↦ rw miss h
    ]
      where
        clash : ◌≡◌ {A = Option (Client f.F)} none (some c) → ⊥
        clash e = cc

    at_url-find :
        (s : Store f.F) (url : Result ConfigurationError String) (k : CacheKey) (c : Client f.F)
        → find s.clients k ≡ some c
        → find (at_url f upper env bound registry request s url).0.clients k ≡ some c
    at_url-find s (err e) k c h = h
    at_url-find s (ok url) k c h = by_flag request.cache
      where
        looked_up :
            (found : Option (Client f.F))
            → find s.clients (cache_key f upper env bound registry request url) ≡ found
            → find (cached f upper env bound registry request url s found).0.clients k ≡ some c
        looked_up (some client) e = h
        looked_up none e =
            keep-find (some _) s _ k c (λ j same. ap (find s.clients) (some_inj (sym same)) ∙ e) h

        by_flag :
            (b : Bool)
            → find (by_cache f upper env bound registry request url s b).0.clients k ≡ some c
        by_flag false = keep-find none s _ k c (λ j e. absurd (cc)) h
        by_flag true =
            looked_up (find s.clients (cache_key f upper env bound registry request url)) refl

  -- A client in the cache stays there under its key, whatever is built after it.
  find-run :
      (cs : List (Call f.F)) (s : Store f.F) (k : CacheKey) (c : Client f.F)
      → find s.clients k ≡ some c
      → find (run cs s).clients k ≡ some c
  unfolding build_client
  find-run [] s k c h = h
  find-run (x ∷ cs) s k c h = find-run cs (perform x s).0 k c (
      at_url-find x.env x.bound x.registry x.request s
        (base_url_of f upper x.env x.bound x.registry x.request) k c h)

  module _ (env : Environ) (bound : Bound f.F) (registry : Snapshot) (request : Request f.F) where
    -- A call that used the cache leaves its client there.
    keep-kept :
        (key : CacheKey) (s s' : Store f.F) (r : Result ConfigurationError (Client f.F))
        (c : Client f.F)
        → keep f upper env bound registry (some key) s r ≡ (s', ok c)
        → find s'.clients key ≡ some c
    unfolding find
    keep-kept key s s' (err e) c h = absurd (cc)
    keep-kept key s s' (ok new) c h =
        let stored : (record { clients = (key, new) ∷ s.clients; built = suc s.built }) ≡ s' =
          ap (λ p. p.0) h in
        let same : new ≡ c = ok_inj (ap (λ p. p.1) h) in
        subst (λ x. find x.clients key ≡ some c) stored (rw (same_key-same key) (ap some same))

    cached-kept :
        (url : String) (s s' : Store f.F) (found : Option (Client f.F)) (c : Client f.F)
        → find s.clients (cache_key f upper env bound registry request url) ≡ found
        → cached f upper env bound registry request url s found ≡ (s', ok c)
        → find s'.clients (cache_key f upper env bound registry request url) ≡ some c
    cached-kept url s s' (some client) c e h =
        subst (λ x. find x.clients (cache_key f upper env bound registry request url) ≡ some c)
          (ap (λ p. p.0) h) (e ∙ ap some (ok_inj (ap (λ p. p.1) h)))
    cached-kept url s s' none c e h = keep-kept _ s s' _ c h

  -- A call that uses the cache is decided by its key.
  looked_up :
      (x : Call f.F) (s : Store f.F) (url : String)
      → x.request.cache ≡ true
      → base_url_of f upper x.env x.bound x.registry x.request ≡ ok url
      → perform x s
        ≡ cached f upper x.env x.bound x.registry x.request url s
            (find s.clients (cache_key f upper x.env x.bound x.registry x.request url))
  unfolding build_client
  looked_up x s url inside at =
      ap (at_url f upper x.env x.bound x.registry x.request s) at
      ∙ ap (by_cache f upper x.env x.bound x.registry x.request url s) inside

  -- A call whose key is in the cache gets that client, and builds none.
  hit :
      (x : Call f.F) (s : Store f.F) (k : CacheKey) (c : Client f.F)
      → LooksFor x k
      → find s.clients k ≡ some c
      → perform x s ≡ (s, ok c)
  hit x s k c (inside, (url, at, key)) h =
      looked_up x s url inside at
      ∙ ap (cached f upper x.env x.bound x.registry x.request url s) (ap (find s.clients) key ∙ h)

  -- Until the cache is reset, calls with one cache key get one client: the second returns what the
  -- first did and builds nothing, whatever is called between them and in whatever environment.
  pub build_client-same :
      (first second : Call f.F) (between : List (Call f.F)) (s s' : Store f.F) (key : CacheKey)
      (c : Client f.F)
      → LooksFor first key
      → LooksFor second key
      → perform first s ≡ (s', ok c)
      → perform second (run between s') ≡ (run between s', ok c)
  build_client-same first second between s s' key c (inside, (url, at, same)) second_key e =
      let stored =
        cached-kept first.env first.bound first.registry first.request url s s' _ c refl
          (sym (looked_up first s url inside at) ∙ e) in
      hit second (run between s') key c second_key
        (find-run between s' key c (subst (λ k. find s'.clients k ≡ some c) same stored))

  -- A cached call that differs from the first only in its extra headers, limits, pool timeout and
  -- retries gets the first call's client all the same.
  pub build_client_ignores :
      (first : Call f.F) (extra : Option (Dict String)) (limits : Limits) (pool_timeout : f.F)
      (retries : Option ℤ) (s s' : Store f.F) (key : CacheKey) (c : Client f.F)
      → LooksFor first key
      → perform first s ≡ (s', ok c)
      → perform
          (record first {
            request = record first.request {
              extra_headers = extra;
              limits = limits;
              pool_timeout = pool_timeout;
              retries = retries;
            };
          })
          s'
        ≡ (s', ok c)
  unfolding base_url_of request_keys cache_key
  build_client_ignores first extra limits pool_timeout retries s s' key c looks e =
      build_client-same first _ [] s s' key c looks looks e
