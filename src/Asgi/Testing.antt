-- ===== src/Asgi/Testing.antt =====
-- netix_backend/asgi/testing.py: the slow app, the driver of one request and the cycles of a server
-- that the contract suite for the ceiling on a request is made of.
pub mod Contract
pub mod Cycle
mod Tests
use Prim.Native.String
use Prim.Native.String.{String}
use netix_backend.Prelude.{
  ℕ, Bool, true, false, List, [], ◌∷◌, ◌++◌, Option, none, some, if◌then◌else◌, ltb, ◌==◌, ◌||◌,
}
use netix_backend.Prelude.Dict
use netix_backend.Prelude.Dict.{Dict}
use netix_backend.Asgi.Timeout.{
  Message, response_start, response_body, other_message, Middleware, Scope, Event, app_sends,
  app_ends, time_is_up, Admission, passed_on, shed, under_clock, admit, run,
}

abbrev pub unsafe_methods : List String
unsafe_methods = "POST" ∷ "PUT" ∷ "PATCH" ∷ "DELETE" ∷ []

-- What the server saw for one request; `finished` is read when the reply is.
pub record Reply : Type 0 where
  pub status : ℕ
  pub headers : Dict String
  pub body : String
  pub finished : Bool

-- An app that sleeps once, by the messages it sends, each with its time in milliseconds, and the
-- time it ends.
pub record App : Type 0 where
  pub sends : List (ℕ × Message)
  pub ends : ℕ

unfoldable pub slow_app : ℕ → App
slow_app delay = record {
  sends = (delay, response_start 200 []) ∷ (delay, response_body "ok") ∷ [];
  ends = delay;
}

abbrev pub messages_of : List (ℕ × Message) → List Message
messages_of [] = []
messages_of ((at, message) ∷ sends) = message ∷ messages_of sends

abbrev pub sent_events : List (ℕ × Message) → List Event
sent_events [] = []
sent_events ((at, message) ∷ sends) = app_sends message ∷ sent_events sends

-- What an app does at a time is inside the timed wait: before its end, or without a sleep that lasts.
-- A sleep of 0 seconds only yields, and a wait of 0 seconds still finds the app done behind it.
abbrev pub in_time : ℕ → ℕ → Bool
in_time timeout at = at == 0 || ltb at timeout

abbrev pub before : ℕ → List (ℕ × Message) → List Event
before timeout [] = []
before timeout ((at, message) ∷ sends) =
    let others = before timeout sends in
    if in_time timeout at then app_sends message ∷ others else others

abbrev pub from_then : ℕ → List (ℕ × Message) → List Event
from_then timeout [] = []
from_then timeout ((at, message) ∷ sends) =
    let others = from_then timeout sends in
    if in_time timeout at then others else app_sends message ∷ others

-- What happens inside the timed wait, whose timer is set before the app's first sleep and so comes
-- first at the same moment past 0, and what happens past it.
unfoldable pub in_wait : ℕ → App → List Event
in_wait timeout app =
    if in_time timeout app.ends
    then sent_events app.sends ++ app_ends ∷ []
    else before timeout app.sends ++ time_is_up ∷ []

unfoldable pub past_wait : ℕ → App → List Event
past_wait timeout app =
    if in_time timeout app.ends then [] else from_then timeout app.sends ++ app_ends ∷ []

-- What reached the server when the middleware returns, and whether the app had ended.
unfoldable pub served : Middleware → Scope → ℕ → App → Admission → List Message × Bool
served m scope timeout app passed_on = (messages_of app.sends, true)
served m scope timeout app (shed messages) = (messages, false)
served m scope timeout app (under_clock call) =
    let waited = run m scope (in_wait timeout app) call in
    let ended = run m scope (past_wait timeout app) waited in
    if waited.abandoned then (waited.wire, false) else (ended.wire, true)

abbrev pub first_start : List Message → Option (ℕ × Dict String)
first_start [] = none
first_start (response_start status headers ∷ messages) = some (status, headers)
first_start (_ ∷ messages) = first_start messages

abbrev pub body_of : List Message → String
body_of [] = ""
body_of (response_body body ∷ messages) = String.◌++◌ body (body_of messages)
body_of (_ ∷ messages) = body_of messages

abbrev pub reply_of : List Message → Bool → Option (ℕ × Dict String) → Option Reply
reply_of sent finished none = none
reply_of sent finished (some (status, headers)) = some record {
  status = status;
  headers = Dict.update [] headers;
  body = body_of sent;
  finished = finished;
}

abbrev pub request_scope : String → Dict String → Scope
request_scope method headers = record {
  kind = "http";
  method = some method;
  path = "/";
  headers = headers;
}

-- One request against a worker whose abandoned tasks are given; `next` raises where the app began
-- no response.
unfoldable pub drive : Middleware → ℕ → App → String → Dict String → ℕ → List ℕ → Option Reply
drive m timeout app method headers task tasks =
    let scope = request_scope method headers in
    let (sent, finished) = served m scope timeout app (admit m scope task tasks) in
    reply_of sent finished (first_start sent)
