-- ===== src/Observability/SentryFilters/Tests.antt =====
-- Two exceptions that cause each other, and a write on a standby.

use netix_backend.Prelude.{◌≡◌, refl, List, [], ◌∷◌, none, some, String, if◌then◌else◌}
use netix_backend.Observability.SentryFilters.Infix.{is_prefix, is_infix}
use netix_backend.Observability.SentryFilters.Candidates.{
  Heap, plain_message, chain_from, exception_chain_text, serialized_texts,
}
use netix_backend.Observability.SentryFilters.Walk.{exception_chain_text_ends}
use netix_backend.Observability.SentryFilters.{
  Event, Hint, chain, fingerprint_matching_signatures, fingerprint_db_infra_errors, matches,
  event_text, event_text_candidates, db_readonly_signatures, db_connect_signatures,
  readonly_fingerprint, connect_fingerprint,
}
use netix_backend.Observability.SentryFilters.Chained.{fingerprint_db_infra_errors_lem}

abbrev cycle : Heap
cycle =
    record {
      type_name = "A";
      text = "a";
      classes = [];
      status_code = none;
      cause = some 1;
      context = none;
    }
    ∷ record {
      type_name = "B";
      text = "b";
      classes = [];
      status_code = none;
      cause = none;
      context = some 0;
    }
    ∷ []

-- The filters, opened.
filters : Unit {0}
unfolding is_prefix is_infix chain_from exception_chain_text serialized_texts chain
    fingerprint_matching_signatures fingerprint_db_infra_errors event_text event_text_candidates
filters = tt

walked : exception_chain_text cycle (some 0) ≡ some ("A: a" ∷ "B: b" ∷ [])
unfolding filters
walked = refl

exception_chain_text_ends_example :
    (lines : List String) × (exception_chain_text cycle (some 0) ≡ some lines)
exception_chain_text_ends_example = exception_chain_text_ends cycle (some 0)

abbrev standby : Event
standby = record {
  exception_values = [];
  logentry = record { message = none; formatted = none };
  message = plain_message "cannot execute UPDATE in a read-only transaction";
  fingerprint = [];
}

abbrev bare : Hint
bare = record { exception = none; log_record = none }

grouped :
    fingerprint_db_infra_errors [] standby bare
    ≡ some (record standby { fingerprint = "db-infra" ∷ "postgres-read-only-transaction" ∷ [] })
unfolding filters
grouped = refl

fingerprint_db_infra_errors_lem_example :
    fingerprint_db_infra_errors [] standby bare
    ≡ some (
        if matches [] (db_readonly_signatures []) standby bare
        then record standby { fingerprint = readonly_fingerprint [] }
        else if matches [] (db_connect_signatures []) standby bare
        then record standby { fingerprint = connect_fingerprint [] }
        else standby)
fingerprint_db_infra_errors_lem_example = fingerprint_db_infra_errors_lem [] standby bare
