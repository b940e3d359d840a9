-- ===== src/Http/Health.antt =====
-- netix_backend/http/health.py: the probe that is answered above Django.
use Prim.Native.String.{count}
use netix_backend.Prelude.{◌&&◌, ◌||◌, List, [], ◌∷◌, String, str_eq, if◌then◌else◌}
use netix_backend.Prelude.Int.{pos}
use netix_backend.Text.{rstrip_char}
use netix_backend.Text.Show.{show_int}
use netix_backend.Asgi.Timeout.{Message, response_start, response_body}

abbrev pub healthz_path : String
healthz_path = "/healthz/"

abbrev pub healthz_body : String
healthz_body = "{\"status\": \"ok\"}"

-- The messages of the reply; the body is ASCII.
unfoldable pub send_healthz : String → List Message
send_healthz body =
    response_start 200
      (("content-type", "application/json") ∷ ("content-length", show_int (pos (count body))) ∷ [])
    ∷ response_body body
    ∷ []

-- A reply, or the call of the app behind it.
pub data Intercepted : Type 0 where
  replied : List Message → Intercepted
  passed_on : Intercepted

unfoldable pub healthz_asgi : String → String → (kind path : String) → Intercepted
healthz_asgi own_path body kind path =
    if str_eq kind "http" && (str_eq path own_path || str_eq path (rstrip_char b'/' own_path))
    then replied (send_healthz body)
    else passed_on
