-- ===== src/Observability/SentryFilters.antt =====
-- netix_backend/observability/sentry_filters.py: the filters that an event passes before it is sent.
pub mod Infix
pub mod Candidates
pub mod Walk
pub mod Chained
mod Tests
use mathlib.Core.Option
use Prim.Native.String
use netix_backend.Prelude.{
  ℕ, zero, suc, ◌==◌, Bool, true, false, not, ◌&&◌, ◌||◌, List, [], ◌∷◌, ◌++◌, Option, none, some,
  String, str_eq, if◌then◌else◌, any, contains, get_elem?, length, leb, ltb,
}
use netix_backend.Observability.SentryFilters.Infix.{is_infix}
use netix_backend.Prelude.Int.{ℤ, leb_ℤ, ltb_ℤ}
use netix_backend.Observability.SentryFilters.Candidates.{
  Error, Heap, exception_chain_text, Serialized, Entry, EventMessage, no_message, serialized_texts,
  entry_texts, message_texts,
}

pub record LogRecord : Type 0 where
  pub name : String
  pub msg : Option String
  pub exc_type : Option String

-- A hint: the exception of its `exc_info` or `originalException`, and its log record.
pub record Hint : Type 0 where
  pub exception : Option ℕ
  pub log_record : Option LogRecord

-- An event; no fingerprint is [].
pub record Event : Type 0 where
  pub exception_values : List Serialized
  pub logentry : Entry
  pub message : EventMessage
  pub fingerprint : List String

-- What a filter does with an event.
pub data Filtered : Type 0 where
  kept : Event → Filtered
  dropped raised : Filtered

abbrev pub EventFilter : Type 0
EventFilter = Event → Hint → Filtered

-- The exceptions of the process, by their identity.
module _ (heap : Heap) where
  abbrev pub chain_texts : Option (List String) → List String
  chain_texts none = []
  chain_texts (some texts) = texts

  unfoldable pub event_text_candidates : Event → Hint → List String
  event_text_candidates event hint =
      chain_texts (exception_chain_text heap hint.exception)
      ++ (serialized_texts event.exception_values
          ++ (entry_texts event.logentry ++ message_texts event.message))

  -- "\n".join(…)
  abbrev pub join_lines : List String → String
  join_lines [] = ""
  join_lines (line ∷ []) = line
  join_lines (line ∷ lines) = String.◌++◌ line (String.◌++◌ "\n" (join_lines lines))

  unfoldable pub event_text : Event → Hint → String
  event_text event hint = join_lines (event_text_candidates event hint)

  abbrev pub matches : List String → Event → Hint → Bool
  matches signatures event hint = any (λ s. is_infix s (event_text event hint)) signatures

  abbrev pub error_at : Option ℕ → Option Error
  error_at none = none
  error_at (some id) = get_elem? heap id

  abbrev pub is_cancelled : Option Error → Bool
  is_cancelled none = false
  is_cancelled (some error) = contains error.classes "CancelledError"

  unfoldable pub drop_cancelled_errors : EventFilter
  drop_cancelled_errors event hint =
      if is_cancelled (error_at hint.exception)
        || any (λ value. is_cancelled_value value.type_name) event.exception_values
      then dropped
      else kept event
    where
      is_cancelled_value : Option String → Bool
      is_cancelled_value none = false
      is_cancelled_value (some name) = str_eq name "CancelledError"

  abbrev pub in_range : ℤ → ℤ → Option ℤ → Bool
  in_range low high none = false
  in_range low high (some status_code) = leb_ℤ low status_code && ltb_ℤ status_code high

  abbrev pub is_client_error : List String → ℤ → ℤ → Option Error → Bool
  is_client_error classes low high none = false
  is_client_error classes low high (some error) =
      any (contains error.classes) classes && in_range low high error.status_code

  unfoldable pub drop_client_errors : List String → ℤ → ℤ → EventFilter
  drop_client_errors classes low high event hint =
      if is_client_error classes low high (error_at hint.exception) then dropped else kept event

  unfoldable pub drop_matching_signatures : List String → EventFilter
  drop_matching_signatures signatures event hint =
      if matches signatures event hint then dropped else kept event

  abbrev pub has_fingerprint : List String → Bool
  has_fingerprint [] = false
  has_fingerprint (_ ∷ _) = true

  unfoldable pub fingerprint_matching_signatures : List String → List String → EventFilter
  fingerprint_matching_signatures signatures fingerprint event hint =
      if has_fingerprint event.fingerprint
      then kept event
      else if matches signatures event hint
      then kept (record event { fingerprint = fingerprint })
      else kept event

  abbrev pub with_exc_type : Option String → List String
  with_exc_type none = []
  with_exc_type (some name) = name ∷ []

  abbrev pub grouped : Event → Option LogRecord → Option String → Filtered
  grouped event (some log) (some template) =
      if has_fingerprint event.fingerprint
      then kept event
      else kept (record event { fingerprint = log.name ∷ template ∷ with_exc_type log.exc_type })
  grouped event _ _ = kept event

  abbrev pub template_of : Option LogRecord → Option String
  template_of none = none
  template_of (some log) = log.msg

  unfoldable pub group_log_events_by_template : EventFilter
  group_log_events_by_template event hint =
      grouped event hint.log_record (template_of hint.log_record)

  -- A filter that raises is skipped; `none` is a dropped event.
  abbrev pub go_on : (Event → Option Event) → Event → Filtered → Option Event
  go_on rest event (kept result) = rest result
  go_on rest event dropped = none
  go_on rest event raised = rest event

  unfoldable pub chain : List EventFilter → Event → Hint → Option Event
  chain [] event hint = some event
  chain (event_filter ∷ filters) event hint =
      go_on (λ current. chain filters current hint) event (event_filter event hint)

  abbrev pub db_readonly_signatures : List String
  db_readonly_signatures = "in a read-only transaction" ∷ []

  abbrev pub db_connect_signatures : List String
  db_connect_signatures =
      "connection timeout expired" ∷ "connection failed: connection to server at"
      ∷ "consuming input failed: server closed the connection unexpectedly"
      ∷ "server closed the connection unexpectedly" ∷ "the connection is closed"
      ∷ "server login has been failing" ∷ "server conn crashed?" ∷ "server shutting down"
      ∷ "database removed" ∷ "the database system is shutting down"
      ∷ "the database system is starting up" ∷ "no more connections allowed" ∷ "query_wait_timeout"
      ∷ "terminating connection due to administrator command" ∷ []

  abbrev pub readonly_fingerprint : List String
  readonly_fingerprint = "db-infra" ∷ "postgres-read-only-transaction" ∷ []

  abbrev pub connect_fingerprint : List String
  connect_fingerprint = "db-infra" ∷ "postgres-connection-failure" ∷ []

  unfoldable pub fingerprint_db_infra_errors : Event → Hint → Option Event
  fingerprint_db_infra_errors = chain (
      fingerprint_matching_signatures db_readonly_signatures readonly_fingerprint
      ∷ fingerprint_matching_signatures db_connect_signatures connect_fingerprint
      ∷ [])
