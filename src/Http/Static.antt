-- ===== src/Http/Static.antt =====
-- netix_backend/http/static.py: the static-service client, uploads and downloads.
pub mod Client
pub mod Loop
pub mod Payloads
mod Tests
use netix_backend.Prelude.{
  ℕ, zero, suc, ◌+◌, ◌==◌, ◌||◌, ◌⊎◌, inl, inr, Bool, true, false, not, List, [], ◌∷◌, ◌++◌, Option,
  none, some, String, ltb, if◌then◌else◌, Result, ok, err, ◌>>=◌,
}
use netix_backend.Prelude.Int.{ℤ, pos, ◌+ℤ◌, pos_part}
use netix_backend.Prelude.Floats.{Floats}
use netix_backend.Prelude.Dict.{Dict, get, set}
use netix_backend.Env.{
  Environ, ConfigurationError, env_bool, flag, env_float, env_str, service_authorization,
  or_default,
}
use netix_backend.Discovery.{Snapshot, service_url}
use netix_backend.Http.Retry.{
  Policy, Bound, SendError, retryable_exc, given, default_retries, default_backoff, init_policy,
  is_retryable_status, jittered_backoff,
}
use netix_backend.Http.Retry.Request.{max_retry_after_seconds}

-- A value of the service's JSON, by its `str` and its truth.
pub record Field : Type 0 where
  pub shown : String
  pub is_true : Bool

-- `json` is the decoded body, a dict; `none` if it cannot be decoded. The body's bytes and its text
-- are kept apart.
pub record Response : Type 0 where
  pub status_code : ℕ
  pub json : Option (Dict Field)
  pub content : List ℕ
  pub text : String

pub data Attempt : Type 0 where
  answered : Response → Attempt
  failed : SendError → Attempt

pub data What : Type 0 where
  upload download : What

-- The reasons of a StaticServiceError; `expired` is its subclass StaticFileExpired.
pub data StaticServiceError : Type 0 where
  unreachable : What → SendError → StaticServiceError
  no_link : Dict Field → StaticServiceError
  refused : What → (status_code : ℕ) → (text : String) → StaticServiceError
  returned : What → (status_code attempt attempts : ℕ) → StaticServiceError
  expired : (link : String) → StaticServiceError
  made_no_attempts : What → StaticServiceError

-- What a call raises.
pub data Failure : Type 0 where
  static_service_error : StaticServiceError → Failure
  -- another exception of the client, passed on
  send_error : SendError → Failure
  undecodable : Failure
  configuration_error : ConfigurationError → Failure

-- A round: the loop ends, or keeps the error and goes on.
pub data Round (R : Type 0) : Type 0 where
  stop : Result Failure R → Round R
  again : StaticServiceError → Round R

-- What a call does: attempts, sleeps, and the end of a client that it built.
pub data Event (F : Type 0) : Type 0 where
  requested : ℕ → Event F
  slept : F → Event F
  closed : Event F

-- status_code in ACCEPTED_UPLOAD_STATUS
unfoldable pub accepted_upload_status : ℕ → Bool
accepted_upload_status status_code = status_code == 200 || status_code == 201

-- payload.setdefault("file", link)
abbrev pub with_file : Dict Field → Field → Option Field → Dict Field
with_file payload link none = set payload "file" link
with_file payload link (some file) = payload

abbrev pub with_link : Dict Field → Option Field → Result Failure (Dict Field)
with_link payload none = err (static_service_error (no_link payload))
with_link payload (some link) =
    if link.is_true
    then ok (with_file payload link (get payload "file"))
    else err (static_service_error (no_link payload))

-- `_upload_payload`
abbrev pub payload_of : Option (Dict Field) → Result Failure (Dict Field)
payload_of none = err undecodable
payload_of (some payload) = with_link payload (get payload "link")

unfoldable pub upload_payload : Response → Result Failure (Dict Field)
upload_payload response = payload_of response.json

-- The body of either loop behind a response.
unfoldable pub upload_round : (attempts attempt : ℕ) → Response → Round (Dict Field)
upload_round attempts attempt response =
    if accepted_upload_status response.status_code
    then stop (upload_payload response)
    else if not (is_retryable_status response.status_code)
    then stop (err (static_service_error (refused upload response.status_code response.text)))
    else again (returned upload response.status_code (attempt + 1) attempts)

unfoldable pub fetch_round : String → (attempts attempt : ℕ) → Response → Round Response
fetch_round link attempts attempt response =
    if response.status_code == 200
    then stop (ok response)
    else if response.status_code == 404
    then stop (err (static_service_error (expired link)))
    else if not (is_retryable_status response.status_code)
    then stop (err (static_service_error (refused download response.status_code response.text)))
    else again (returned download response.status_code (attempt + 1) attempts)

-- `_attempt`, with the rest of the loop's body.
unfoldable pub attempt_round : {R : Type 0} → What → (Response → Round R) → Attempt → Round R
attempt_round what round (answered response) = round response
attempt_round what round (failed e) =
    if retryable_exc e then again (unreachable what e) else stop (err (send_error e))

-- `str(payload["link"])`; a StaticServiceError is logged, and gives "".
abbrev link_of : Option Field → String
link_of none = ""
link_of (some link) = link.shown

unfoldable pub link_or_empty :
    Result Failure (Dict Field) → Result Failure String × List StaticServiceError
link_or_empty (ok payload) = (ok (link_of (get payload "link")), [])
link_or_empty (err (static_service_error e)) = (ok "", e ∷ [])
link_or_empty (err e) = (err e, [])

-- The form of an upload: `retention_date` is ISO text.
abbrev described : Option String → Dict String → Dict String
described none form = form
described (some description) form = set form "description" description

unfoldable pub upload_form : (name mime retention_date : String) → Option String → Dict String
upload_form name mime retention_date description =
    described description
      (("name", name) ∷ ("mime", mime) ∷ ("retention_date", retention_date) ∷ [])

module _ (f : Floats) where
  open f use {F}

  module _ {R : Type 0} (what : What) (round : ℕ → ℕ → Response → Round R) (backoff : F)
      (draws : ℕ → F → F) (send : ℕ → Attempt) where
    abbrev pub before :
        List (Event F) → List (Event F) × Result Failure R → List (Event F) × Result Failure R
    before events (trace, result) = (events ++ trace, result)

    abbrev pub pause : (attempts attempt : ℕ) → List (Event F)
    pause attempts attempt =
        if ltb (attempt + 1) attempts
        then slept (jittered_backoff f backoff attempt (draws attempt)) ∷ []
        else []

    -- `for attempt in range(attempts)`, with the rounds that are left and `last_error`.
    unfoldable pub loop :
        (left attempts attempt : ℕ) → Option StaticServiceError → List (Event F) × Result Failure R
    loop zero attempts attempt last_error =
        ([], err (static_service_error (or_default (made_no_attempts what) last_error)))
    loop (suc left) attempts attempt last_error =
        elim (attempt_round what (round attempts attempt) (send attempt)) [
          | stop result ↦ (requested attempt ∷ [], result)
          | again error ↦
              before (requested attempt ∷ pause attempts attempt)
                (loop left attempts (suc attempt) (some error))
        ]
