-- ===== src/Asgi/Timeout.antt =====
-- netix_backend/asgi/timeout.py: the ceiling on a request, and the replies that it sends.
pub mod Soundness
pub mod Wire
pub mod Pool
mod Tests
use Prim.Native.String.{count}
use netix_backend.Prelude.{
  ℕ, ◌==◌, Bool, true, false, not, ◌&&◌, ◌||◌, List, [], ◌∷◌, ◌++◌, Option, none, some, String,
  str_eq, if◌then◌else◌, contains, length,
}
use netix_backend.Prelude.Int.{ℤ, pos, leb_ℤ}
use netix_backend.Prelude.Dict
use netix_backend.Prelude.Dict.{Dict}
use netix_backend.Text.Show.{show_int}

abbrev pub safe_methods : List String
safe_methods = "GET" ∷ "HEAD" ∷ "OPTIONS" ∷ []

abbrev pub never_shed : List String
never_shed = "OPTIONS" ∷ []

abbrev pub retry_after_seconds : ℤ
retry_after_seconds = pos 5

pub data Message : Type 0 where
  response_start : (status : ℕ) → (headers : Dict String) → Message
  response_body : String → Message
  other_message : String → Message

-- A scope: its type, its method and path, and its headers.
pub record Scope : Type 0 where
  pub kind : String
  pub method : Option String
  pub path : String
  pub headers : Dict String

-- The three settings of django-cors-headers, with their defaults where they are not set.
pub record Cors : Type 0 where
  pub allow_all_origins : Bool
  pub allowed_origins : List String
  pub allow_credentials : Bool

abbrev pub origin_headers : Cors → Option String → Dict String
origin_headers cors none = []
origin_headers cors (some origin) =
    if str_eq origin "" || not (cors.allow_all_origins || contains cors.allowed_origins origin)
    then []
    else ("access-control-allow-origin", if cors.allow_all_origins then "*" else origin)
      ∷ ("vary", "Origin")
      ∷ (if not cors.allow_all_origins && cors.allow_credentials
          then ("access-control-allow-credentials", "true") ∷ []
          else [])

unfoldable pub cors_headers : Cors → Scope → Dict String
cors_headers cors scope = origin_headers cors (Dict.get scope.headers "origin")

abbrev pub retry_header : Option ℤ → Dict String
retry_header none = []
retry_header (some seconds) = ("retry-after", show_int seconds) ∷ []

-- `dumps` renders the envelope, in ASCII.
unfoldable pub error_messages :
    (ℕ → String → String) → Cors → ℕ → String → Scope → Option ℤ → List Message
error_messages dumps cors status message scope retry_after =
    let body = dumps status message in
    response_start status (
      ("content-type", "application/json")
        ∷ ("content-length", show_int (pos (count body)))
        ∷ retry_header retry_after
      ++ cors_headers cors scope)
    ∷ response_body body
    ∷ []

unfoldable pub text_messages : ℕ → String → Scope → Option ℤ → List Message
text_messages status message scope retry_after =
    response_start status (("content-type", "text/plain; charset=utf-8") ∷ retry_header retry_after)
    ∷ response_body message
    ∷ []

-- The middleware's configuration; `error_body` renders a status, a message and a Retry-After.
pub record Middleware : Type 0 where
  pub safe_methods : Option (List String)
  pub never_shed : List String
  pub max_abandoned : ℤ
  pub retry_after : Option ℤ
  pub error_body : ℕ → String → Scope → Option ℤ → List Message
  pub timeout_message : String
  pub overloaded_message : String

abbrev pub method_in : List String → Option String → Bool
method_in methods none = false
method_in methods (some method) = contains methods method

abbrev pub capped_by : Option (List String) → Option String → Bool
capped_by none method = true
capped_by (some methods) method = method_in methods method

unfoldable pub is_capped : Middleware → Option String → Bool
is_capped m method = capped_by m.safe_methods method

-- Where the call stands: inside the timed wait, past it with the response begun, done, or answered
-- by us with the request left running or finished late.
pub data Phase : Type 0 where
  watched overrun finished left_running finished_late : Phase

-- One request: the channel's two flags, what went to the server, and the tasks that are abandoned.
pub record Call : Type 0 where
  pub task : ℕ
  pub started : Bool
  pub abandoned : Bool
  pub wire : List Message
  pub phase : Phase
  pub abandoned_tasks : List ℕ

abbrev pub is_start : Message → Bool
is_start (response_start status headers) = true
is_start _ = false

-- `_ResponseChannel.send`
unfoldable pub channel_send : Message → Call → Call
channel_send message c =
    if c.abandoned
    then c
    else record c { started = c.started || is_start message; wire = c.wire ++ message ∷ [] }

abbrev pub discard : ℕ → List ℕ → List ℕ
discard task [] = []
discard task (t ∷ ts) = let rest = discard task ts in if t == task then rest else t ∷ rest

-- `self._abandoned.add(request)`: the set is in a list without repeats.
unfoldable pub abandon : Call → Call
abandon c = record c {
  abandoned = true;
  abandoned_tasks = c.task ∷ discard c.task c.abandoned_tasks;
  phase = left_running;
}

abbrev pub reply : List Message → Call → Call
reply messages c = record c { wire = c.wire ++ messages }

-- The wait runs out.
unfoldable pub time_out : Middleware → Scope → Call → Call
time_out m scope c =
    if c.started
    then record c { phase = overrun }
    else reply (m.error_body 504 m.timeout_message scope none) (abandon c)

-- The request's task ends, with a result or an exception.
abbrev pub settle : Phase → Call → Call
settle watched c = record c { phase = finished }
settle overrun c = record c { phase = finished }
settle left_running c = record c {
  phase = finished_late;
  abandoned_tasks = discard c.task c.abandoned_tasks;
}
settle _ c = c

-- What may happen while a request runs, in any order.
pub data Event : Type 0 where
  app_sends : Message → Event
  app_ends : Event
  time_is_up : Event

abbrev pub is_over : Phase → Bool
is_over finished = true
is_over finished_late = true
is_over _ = false

abbrev pub is_watched : Phase → Bool
is_watched watched = true
is_watched _ = false

-- An app that has ended sends nothing, and the clock counts inside the timed wait alone.
unfoldable pub step : Middleware → Scope → Event → Call → Call
step m scope (app_sends message) c = if is_over c.phase then c else channel_send message c
step m scope app_ends c = settle c.phase c
step m scope time_is_up c = if is_watched c.phase then time_out m scope c else c

unfoldable pub run : Middleware → Scope → List Event → Call → Call
run m scope [] c = c
run m scope (e ∷ es) c = run m scope es (step m scope e c)

-- What the middleware does with a scope: hand it on, answer 503, or run it under the clock.
pub data Admission : Type 0 where
  passed_on : Admission
  shed : List Message → Admission
  under_clock : Call → Admission

abbrev pub fresh_call : ℕ → List ℕ → Call
fresh_call task abandoned_tasks = record {
  task = task;
  started = false;
  abandoned = false;
  wire = [];
  phase = watched;
  abandoned_tasks = abandoned_tasks;
}

unfoldable pub admit : Middleware → Scope → ℕ → List ℕ → Admission
admit m scope task abandoned_tasks =
    if not (str_eq scope.kind "http") || not (is_capped m scope.method)
    then passed_on
    else if not (method_in m.never_shed scope.method)
        && leb_ℤ m.max_abandoned (pos (length abandoned_tasks))
    then shed (m.error_body 503 m.overloaded_message scope m.retry_after)
    else under_clock (fresh_call task abandoned_tasks)
