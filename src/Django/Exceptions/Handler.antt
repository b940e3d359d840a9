-- ===== src/Django/Exceptions/Handler.antt =====
-- `render_messages` and `custom_exception_handler` of netix_backend/django/exceptions.py.
use netix_backend.Prelude.{
  ℕ, Bool, true, false, not, ◌&&◌, List, [], ◌∷◌, Option, none, some, String, if◌then◌else◌, Result,
  ok, ◌>>=◌,
}
use netix_backend.Prelude.Dict.{Dict}
use netix_backend.Env.{or_default}
use netix_backend.Django.Exceptions.{Detail}
use netix_backend.Django.Exceptions.Messages.{
  Kind, validation_error, http404, database_error, Raised, Settings, ImproperlyConfigured,
  by_setting, db_unavailable_message, build_messages, consistent_messages,
}

pub data Wire : Type 0 where
  one : String → Wire
  many : List String → Wire

pub record Response (D : Type 0) : Type 0 where
  pub status_code : ℕ
  pub headers : Dict String
  -- `data`
  pub body : D

pub record Envelope : Type 0 where
  pub status_code : ℕ
  pub messages : Wire

pub data LogLine : Type 0 where
  unhandled_database_error : LogLine

-- `repr` is the `str` of a list, tuple, set or dict in a payload, `repr_list` that of a list of texts.
module _ (repr : Detail → String) (repr_list : List String → String) where
  abbrev first_or_empty : List String → String
  first_or_empty [] = ""
  first_or_empty (m ∷ ms) = m

  unfoldable pub render_messages : Settings → List String → Option Bool → Bool → Wire
  render_messages settings messages stringified as_list =
      if not as_list
      then one (first_or_empty messages)
      else if or_default (or_default true settings.stringified) stringified
      then one (repr_list messages)
      else many messages

  abbrev as_list_by_kind : Settings → Kind → Bool
  as_list_by_kind settings validation_error = true
  as_list_by_kind settings http404 = or_default true settings.http404_as_list
  as_list_by_kind settings _ = or_default false settings.non_validation_as_list

  unfoldable pub as_list_for : Settings → Raised → Bool
  as_list_for settings exc = as_list_by_kind settings exc.kind

  abbrev pub is_database_error : Kind → Bool
  is_database_error database_error = true
  is_database_error _ = false

  abbrev pub is_consistent : Settings → Bool
  is_consistent settings = or_default false settings.consistent_envelope

  abbrev Answer : Type 0
  Answer = Option (Response Envelope) × List LogLine

  -- What DRF leaves unhandled.
  abbrev unhandled : Settings → Raised → Answer
  unhandled settings exc =
      if or_default false settings.db_unavailable_503 && is_database_error exc.kind
      then (
        some (record {
          status_code = 503;
          headers = [];
          body = record {
            status_code = 503;
            messages =
                if is_consistent settings
                then many (db_unavailable_message ∷ [])
                else one db_unavailable_message;
          };
        }),
        unhandled_database_error ∷ [],
      )
      else (none, [])

  abbrev wire_messages : Settings → Raised → Result ImproperlyConfigured Wire
  wire_messages settings exc =
      if is_consistent settings
      then ok (many (consistent_messages repr exc))
      else (build_messages repr settings exc by_setting >>= λ messages.
          ok (render_messages settings messages none (as_list_for settings exc)))

  -- `response` is what DRF's own handler makes of the exception, with its body of any type.
  unfoldable pub custom_exception_handler :
      {D : Type 0} → Settings → Raised → Option (Response D) → Result ImproperlyConfigured Answer
  custom_exception_handler settings exc none = ok (unhandled settings exc)
  custom_exception_handler settings exc (some response) = do
    messages ← wire_messages settings exc
    ok (
      some (record {
        status_code = response.status_code;
        headers = response.headers;
        body = record { status_code = response.status_code; messages = messages };
      }),
      [],
    )
