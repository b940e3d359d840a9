-- ===== src/Discovery/Cache.antt =====
-- How often the registry is asked, and what a peer's name resolves to.
use netix_backend.Prelude.{
  ℕ, ◌+◌, ◌≤◌, ◌<◌, ◌≡◌, refl, ◌∙◌, true, false, List, [], ◌∷◌, Option, none, some, String, leb,
  arith,
}
use netix_backend.Prelude.Dict.{Dict}
use netix_backend.Discovery.{
  Snapshot, Started, nothing, refresh_thread, cache_seconds, refresh, current, renewed,
}

-- What happens to the snapshot: a lookup at a time, and the end of a thread's fetch.
pub data Event : Type 0 where
  lookup_at : ℕ → Event
  thread_ends : Option (Dict String × List String) → Event

abbrev pub threads_of : Started → ℕ
threads_of nothing = 0
threads_of refresh_thread = 1

-- How many threads a run starts after the first lookup.
unfoldable pub threads_in : List Event → Snapshot → ℕ
threads_in [] s = 0
threads_in (lookup_at now ∷ es) s =
    let (after, started) = current now none s in threads_of started + threads_in es after
threads_in (thread_ends fetched ∷ es) s = threads_in es (refresh fetched s)

-- No lookup of a run is later than a time.
abbrev pub AllBefore : ℕ → List Event → Type 0
AllBefore n [] = Unit
AllBefore n (lookup_at now ∷ es) = (now < n) × AllBefore n es
AllBefore n (thread_ends fetched ∷ es) = AllBefore n es

refresh-expires :
    (f : Option (Dict String × List String)) (s : Snapshot) → (refresh f s).expires ≡ s.expires
unfolding refresh
refresh-expires none s = refl
refresh-expires (some (urls, origins)) s = refl

-- Until a snapshot expires no lookup asks the registry again, whatever its threads bring.
quiet :
    (n : ℕ) (es : List Event) (s : Snapshot)
    → s.expires ≡ some n
    → AllBefore n es
    → threads_in es s ≡ 0
unfolding threads_in current
quiet n [] s e h = refl
quiet n (lookup_at now ∷ es) s e (lt, h) =
    let early : leb n now ≡ false = ground arith in
    simp (e, early) (omega (arith, quiet n es s e h))
quiet n (thread_ends fetched ∷ es) s e h =
    quiet n es (refresh fetched s) (refresh-expires fetched s ∙ e) h

-- When a snapshot has expired the next lookup starts one thread, and none of the lookups of the
-- following minute starts another, whatever the fetches give and however late they end.
pub one_thread_at_expiry :
    (n now : ℕ) (es : List Event) (s : Snapshot)
    → s.expires ≡ some n
    → n ≤ now
    → AllBefore (now + cache_seconds) es
    → threads_in (lookup_at now ∷ es) s ≡ 1
unfolding threads_in current
one_thread_at_expiry n now es s e late h =
    let over : leb n now ≡ true = ground arith in
    simp (e, over) (omega (arith, quiet (now + cache_seconds) es (renewed now s) refl h))
