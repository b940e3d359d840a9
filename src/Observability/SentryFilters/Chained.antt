-- ===== src/Observability/SentryFilters/Chained.antt =====
-- What a chain of filters does, and the fingerprint of a database failure.
use netix_backend.Prelude.{
  ◌≡◌, refl, List, [], ◌∷◌, ◌++◌, Option, none, some, if◌then◌else◌, Bool-cases, inl, inr,
}
use netix_backend.Observability.SentryFilters.Candidates.{Heap}
use netix_backend.Observability.SentryFilters.{
  Event, EventFilter, Hint, Filtered, kept, dropped, raised, chain, go_on,
  fingerprint_matching_signatures, fingerprint_db_infra_errors, matches, db_readonly_signatures,
  db_connect_signatures, readonly_fingerprint, connect_fingerprint, has_fingerprint,
}

abbrev pub and_then : Option Event → (Event → Option Event) → Option Event
and_then none rest = none
and_then (some event) rest = rest event

module _ (heap : Heap) where
  -- A chain of two lists of filters is the second chain after the first; a drop in the first ends it.
  pub chain-append :
      (before after : List EventFilter) (event : Event) (hint : Hint)
      → chain heap (before ++ after) event hint
        ≡ and_then (chain heap before event hint) (λ current. chain heap after current hint)
  unfolding chain
  chain-append [] after event hint = refl
  chain-append (f ∷ before) after event hint =
      by_result (f event hint) λ current. chain-append before after current hint
    where
      by_result :
          (r : Filtered)
          → ((current : Event)
              → chain heap (before ++ after) current hint
                ≡ and_then (chain heap before current hint) (λ e. chain heap after e hint))
          → go_on heap (λ current. chain heap (before ++ after) current hint) event r
            ≡ and_then
                (go_on heap (λ current. chain heap before current hint) event r)
                (λ e. chain heap after e hint)
      by_result (kept result) ih = ih result
      by_result dropped ih = refl
      by_result raised ih = ih event

  -- A database failure gets the fingerprint of its kind, a write on a standby before a lost
  -- connection; a fingerprint that is set stays, and no event is dropped or changed otherwise.
  pub fingerprint_db_infra_errors_lem :
      (event : Event) (hint : Hint)
      → fingerprint_db_infra_errors heap event hint
        ≡ some (
            if has_fingerprint heap event.fingerprint
            then event
            else if matches heap (db_readonly_signatures heap) event hint
            then record event { fingerprint = readonly_fingerprint heap }
            else if matches heap (db_connect_signatures heap) event hint
            then record event { fingerprint = connect_fingerprint heap }
            else event)
  unfolding fingerprint_db_infra_errors fingerprint_matching_signatures chain
  fingerprint_db_infra_errors_lem event hint =
      elim (Bool-cases (has_fingerprint heap event.fingerprint)) [
        | inl set ↦ rw set (rw set refl)
        | inr unset ↦ elim (Bool-cases (matches heap (db_readonly_signatures heap) event hint)) [
          | inl readonly ↦ rw unset (rw readonly refl)
          | inr writable ↦
              elim (Bool-cases (matches heap (db_connect_signatures heap) event hint)) [
                | inl lost ↦ rw unset (rw writable (rw unset (rw lost refl)))
                | inr other ↦ rw unset (rw writable (rw unset (rw other refl)))
              ]
        ]
      ]
