-- ===== src/Http/Clients/Refinement.antt =====
-- The cache against the history of the calls: it answers as if it looked up the first call with the
-- same key.
use netix_backend.Prelude.{
  ℕ, suc, ◌≡◌, inl, inr, refl, subst, sym, ap, ap₂, ◌∙◌, Bool, true, false, List, [], ◌∷◌, ◌++◌,
  Option, none, some, String, if◌then◌else◌, Result, ok, err, Bool-cases,
}
use netix_backend.Prelude.Floats.{Floats}
use netix_backend.Env.{ConfigurationError}
use netix_backend.Http.Clients.{Client, CacheKey, Store, same_key, find, reset_client_cache}
use netix_backend.Http.Clients.Build.{
  construct_client, request_keys, base_url_of, cache_key, keep, cached, by_cache, at_url,
  build_client,
}
use netix_backend.Http.Clients.Keys.{same_key→eq}
use netix_backend.Http.Clients.Cache.{Call, perform}

-- Every answer that a call with the cache has given since the last reset, in order, and the number
-- of clients built.
pub record History (F : Type 0) : Type 0 where
  pub answers : List (CacheKey × Client F)
  pub built : ℕ

abbrev pub first_answer : {F : Type 0} → List (CacheKey × Client F) → CacheKey → Option (Client F)
first_answer [] k = none
first_answer ((j, c) ∷ cs) k = if same_key j k then some c else first_answer cs k

abbrev otherwise : {A : Type 0} → Option A → Option A → Option A
otherwise (some a) o = some a
otherwise none o = o

otherwise-none : {A : Type 0} (o : Option A) → otherwise o none ≡ o
otherwise-none (some a) = refl
otherwise-none none = refl

none_is_not : {A : Type 0} {a : A} → none ≡ some a → ⊥
none_is_not e = cc

pub data Action (F : Type 0) : Type 0 where
  call : Call F → Action F
  reset : Action F

module _ (f : Floats) (upper : String → String) where
  abbrev Answer : Type 0
  Answer = Result ConfigurationError (Client f.F)

  abbrev pub add : CacheKey → Client f.F → History f.F → History f.F
  add key client h = record h { answers = h.answers ++ (key, client) ∷ [] }

  abbrev pub built : Option CacheKey → History f.F → Answer → History f.F × Answer
  built key h (err e) = (h, err e)
  built none h (ok client) = (record h { built = suc h.built }, ok client)
  built (some key) h (ok client) = (add key client (record h { built = suc h.built }), ok client)

  -- What the history says of a call.
  module _ (c : Call f.F) where
    abbrev pub construct : String → ℕ → Answer
    construct url serial =
        construct_client f upper c.env c.bound c.registry c.request url
          (request_keys f upper c.env c.bound c.registry c.request) serial

    abbrev pub key_at : String → CacheKey
    key_at url = cache_key f upper c.env c.bound c.registry c.request url

    abbrev pub recalled : String → History f.F → Option (Client f.F) → History f.F × Answer
    recalled url h (some client) = (add (key_at url) client h, ok client)
    recalled url h none = built (some (key_at url)) h (construct url h.built)

    abbrev pub recall_by : String → History f.F → Bool → History f.F × Answer
    recall_by url h false = built none h (construct url h.built)
    recall_by url h true = recalled url h (first_answer h.answers (key_at url))

    abbrev pub recall : History f.F → Result ConfigurationError String → History f.F × Answer
    recall h (err e) = (h, err e)
    recall h (ok url) = recall_by url h c.request.cache

  abbrev pub spec_step : Action f.F → History f.F → History f.F × List Answer
  spec_step (call c) h =
      let (h', answer) = recall c h (base_url_of f upper c.env c.bound c.registry c.request) in
      (h', answer ∷ [])
  spec_step reset h = (record h { answers = [] }, [])

  abbrev pub step : Action f.F → Store f.F → Store f.F × List Answer
  step (call c) s = let (s', answer) = perform f upper c s in (s', answer ∷ [])
  step reset s = (reset_client_cache s, [])

  -- The answers of a run.
  abbrev pub spec_run : List (Action f.F) → History f.F → List Answer
  spec_run [] h = []
  spec_run (a ∷ as') h = let (h', answers) = spec_step a h in answers ++ spec_run as' h'

  abbrev pub run : List (Action f.F) → Store f.F → List Answer
  run [] s = []
  run (a ∷ as') s = let (s', answers) = step a s in answers ++ run as' s'

  -- The cache holds, for every key, what was first answered for it.
  abbrev pub Refines : Store f.F → History f.F → Type 0
  Refines s h = ((k : CacheKey) → find s.clients k ≡ first_answer h.answers k) × (s.built ≡ h.built)

  -- What one more answer changes.
  first_answer-add :
      (cs : List (CacheKey × Client f.F)) (key k : CacheKey) (c : Client f.F)
      → first_answer (cs ++ (key, c) ∷ []) k
        ≡ otherwise (first_answer cs k) (if same_key key k then some c else none)
  first_answer-add [] key k c = refl
  first_answer-add ((j, d) ∷ cs) key k c = elim (Bool-cases (same_key j k)) [
    | inl found ↦ rw found refl
    | inr miss ↦ rw miss (first_answer-add cs key k c)
  ]

  -- One more answer for a key that has one changes nothing.
  add_hit :
      (cs : List (CacheKey × Client f.F)) (key k : CacheKey) (c : Client f.F)
      → first_answer cs key ≡ some c
      → first_answer (cs ++ (key, c) ∷ []) k ≡ first_answer cs k
  add_hit cs key k c h = first_answer-add cs key k c ∙ elim (Bool-cases (same_key key k)) [
    | inr other ↦ rw other (otherwise-none (first_answer cs k))
    | inl same ↦
        let at : first_answer cs k ≡ some c =
          ap (first_answer cs) (sym (same_key→eq key k same)) ∙ h in
        rw at refl
  ]

  add_miss :
      (clients cs : List (CacheKey × Client f.F)) (key k : CacheKey) (c : Client f.F)
      → find clients k ≡ first_answer cs k
      → first_answer cs key ≡ none
      → find ((key, c) ∷ clients) k ≡ first_answer (cs ++ (key, c) ∷ []) k
  unfolding find
  add_miss clients cs key k c same h =
      elim (Bool-cases (same_key key k)) [
        | inr other ↦ rw other (same ∙ sym (otherwise-none (first_answer cs k)))
        | inl is ↦
            let at : first_answer cs k ≡ none =
              ap (first_answer cs) (sym (same_key→eq key k is)) ∙ h in
            rw (is, at) refl
      ]
      ∙ sym (first_answer-add cs key k c)

  -- Related states give one answer, and stay related.
  abbrev Agree : Store f.F × Answer → History f.F × Answer → Type 0
  Agree (s, x) (h, y) = Refines s h × (x ≡ y)

  built-Agree :
      (c : Call f.F) (s : Store f.F) (h : History f.F) (key : CacheKey) (x : Answer)
      → Refines s h
      → first_answer h.answers key ≡ none
      → Agree (keep f upper c.env c.bound c.registry (some key) s x) (built (some key) h x)
  built-Agree c s h key (err e) r missing = (r, refl)
  built-Agree c s h key (ok client) (r, count) missing =
      ((λ k. add_miss s.clients h.answers key k client (r k) missing, ap suc count), refl)

  outside-Agree :
      (c : Call f.F) (s : Store f.F) (h : History f.F) (x : Answer)
      → Refines s h
      → Agree (keep f upper c.env c.bound c.registry none s x) (built none h x)
  outside-Agree c s h (err e) r = (r, refl)
  outside-Agree c s h (ok client) (r, count) = ((r, ap suc count), refl)

  module _ (c : Call f.F) (s : Store f.F) (h : History f.F) (r : Refines s h) where
    cached-Agree :
        (url : String) (found : Option (Client f.F))
        → first_answer h.answers (key_at c url) ≡ found
        → Agree
            (cached f upper c.env c.bound c.registry c.request url s found)
            (recalled c url h found)
    cached-Agree url (some client) e =
        ((λ k. r.0 k ∙ sym (add_hit h.answers (key_at c url) k client e), r.1), refl)
    cached-Agree url none e =
        subst
          (λ x.
            Agree (keep f upper c.env c.bound c.registry (some (key_at c url)) s x)
              (built (some (key_at c url)) h (construct c url h.built)))
          (sym (ap (construct c url) r.1))
          (built-Agree c s h (key_at c url) (construct c url h.built) r e)

    by_cache-Agree :
        (url : String) (b : Bool)
        → Agree (by_cache f upper c.env c.bound c.registry c.request url s b) (recall_by c url h b)
    by_cache-Agree url false =
        subst
          (λ x.
            Agree (keep f upper c.env c.bound c.registry none s x)
              (built none h (construct c url h.built)))
          (sym (ap (construct c url) r.1)) (outside-Agree c s h (construct c url h.built) r)
    by_cache-Agree url true =
        rw (r.0 (key_at c url)) (cached-Agree url (first_answer h.answers (key_at c url)) refl)

    perform-Agree :
        Agree
          (perform f upper c s)
          (recall c h (base_url_of f upper c.env c.bound c.registry c.request))
    unfolding build_client
    perform-Agree = at (base_url_of f upper c.env c.bound c.registry c.request)
      where
        at :
            (url : Result ConfigurationError String)
            → Agree (at_url f upper c.env c.bound c.registry c.request s url) (recall c h url)
        at (err e) = (r, refl)
        at (ok url) = by_cache-Agree url c.request.cache

  run_from :
      (actions : List (Action f.F)) (s : Store f.F) (h : History f.F)
      → Refines s h
      → run actions s ≡ spec_run actions h
  unfolding reset_client_cache find
  run_from [] s h r = refl
  run_from (call c ∷ rest) s h r =
      let (r', same) = perform-Agree c s h r in ap₂ (λ x xs. x ∷ xs) same (run_from rest _ _ r')
  run_from (reset ∷ rest) s h (r, count) = run_from rest _ _ (λ k. refl, count)

  -- A run of calls and resets from an empty cache gives the answers of the history: a call with the
  -- cache gets what the first successful call with its key since the last reset got, and builds a
  -- client only if there was none; a call outside the cache builds one and leaves no trace.
  pub run-spec_run :
      (actions : List (Action f.F))
      → run actions (record { clients = []; built = 0 })
        ≡ spec_run actions (record { answers = []; built = 0 })
  unfolding find
  run-spec_run actions =
      run_from actions (record { clients = []; built = 0 }) (record { answers = []; built = 0 })
        (λ k. refl, refl)
