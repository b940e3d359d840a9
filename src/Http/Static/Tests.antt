-- ===== src/Http/Static/Tests.antt =====
-- Uploads and downloads, over tenths of a second.
use netix_backend.Prelude.{
  ℕ, ◌==◌, ◌≡◌, refl, true, false, List, [], ◌∷◌, Option, none, some, Result, ok, err, str_eq,
  if◌then◌else◌,
}
use netix_backend.Prelude.Int.{pos, negsuc, ◌+ℤ◌}
use netix_backend.Prelude.Dict.{Dict, get, set}
use netix_backend.Prelude.Tenths.{Tenths, tenth, tenths_floats}
use netix_backend.Env.{
  Environ, lookup, env_str, env_float, service_authorization, first_set, env_bool, parse_bool,
}
use netix_backend.Discovery.{Snapshot, service_url}
use netix_backend.Text.{strip, lstrip, rstrip, is_space}
use netix_backend.Http.Retry.{
  unbound, network_error, default_retries, default_backoff, init_policy, is_retryable_status,
  jittered_backoff, retryable_exc,
}
use netix_backend.Http.Static.{
  Field, Response, Attempt, answered, failed, upload, download, Failure, static_service_error,
  expired, returned, made_no_attempts, Event, requested, slept, closed, attempt_round, loop,
  upload_payload, upload_round, fetch_round, accepted_upload_status, link_or_empty,
}
use netix_backend.Http.Static.Client.{
  Client, attempts, build_static_client, static_call, static_upload, fetch,
}
use netix_backend.Http.Static.Loop.{IsRun, loop-IsRun, was_requested}
use netix_backend.Http.Static.Payloads.{IsCompleted, static_upload-IsCompleted}

-- The variables of a pod that may call the service.
abbrev env : Environ
env name =
    if str_eq name "STATIC_SVC_URL"
    then some "http://static"
    else if str_eq name "STATIC_SVC_AUTH"
    then some "Token s"
    else none

abbrev registry : Snapshot
registry = record { expires = none; urls = []; origins = [] }

abbrev whole : ℕ → Tenths → Tenths
whole n y = y

abbrev link : Field
link = record { shown = "http://static/1"; is_true = true }

abbrev stored : Response
stored = record {
  status_code = 201;
  json = some (("link", link) ∷ []);
  content = 1 ∷ [];
  text = "x";
}

abbrev with_status : ℕ → Response
with_status n = record { status_code = n; json = none; content = 1 ∷ []; text = "x" }

-- A network error, and then what the service answers.
abbrev script : Response → Option (Client tenths_floats ℕ) → ℕ → Attempt
script r c n = if n == 0 then failed network_error else answered r

opened : Unit {0}
unfolding lookup env_str env_float service_authorization first_set env_bool parse_bool service_url
    strip lstrip rstrip is_space default_retries default_backoff init_policy is_retryable_status
    jittered_backoff retryable_exc attempt_round loop upload_payload upload_round fetch_round
    accepted_upload_status attempts build_static_client static_call static_upload fetch ◌+ℤ◌ get set
    link_or_empty
opened = tt

uploaded :
    static_upload tenths_floats {T = ℕ} env unbound registry whole
      (script stored)
      false
      none
      (some (pos 2))
      none
    ≡ (
      requested 0 ∷ slept (tenth 4) ∷ requested 1 ∷ closed ∷ [],
      ok (("link", link) ∷ ("file", link) ∷ []),
    )
unfolding opened
uploaded = refl

gone :
    fetch tenths_floats {T = ℕ} env unbound registry whole
      (script (with_status 404))
      "l"
      true
      none
      (some (pos 2))
      none
    ≡ (requested 0 ∷ slept (tenth 4) ∷ requested 1 ∷ [], err (static_service_error (expired "l")))
unfolding opened
gone = refl

exhausted :
    fetch tenths_floats {T = ℕ} env unbound registry whole
      (script (with_status 500))
      "l"
      true
      none
      (some (pos 1))
      none
    ≡ (
      requested 0 ∷ slept (tenth 4) ∷ requested 1 ∷ [],
      err (static_service_error (returned download 500 2 2)),
    )
unfolding opened
exhausted = refl

none_made :
    fetch tenths_floats {T = ℕ} env unbound registry whole
      (script stored)
      "l"
      true
      none
      (some (negsuc 0))
      none
    ≡ ([], err (static_service_error (made_no_attempts download)))
unfolding opened
none_made = refl

downloaded :
    fetch tenths_floats {T = ℕ} env unbound registry whole
      (script (with_status 200))
      "l"
      true
      none
      (some (pos 1))
      none
    ≡ (requested 0 ∷ slept (tenth 4) ∷ requested 1 ∷ [], ok (with_status 200))
unfolding opened
downloaded = refl

loop-IsRun_example :
    (trace : List (Event Tenths)) × (result : Result Failure (Dict Field)) × (loop tenths_floats
        upload upload_round
        (tenth 5)
        whole
        (script stored none)
        3
        3
        0
        none
      ≡ (trace, result))
    × IsRun tenths_floats upload upload_round
        (tenth 5)
        whole
        (script stored none)
        3
        3
        0
        none
        trace
        result
loop-IsRun_example =
    loop-IsRun tenths_floats upload upload_round (tenth 5) whole (script stored none) 3

static_upload-IsCompleted_example :
    (c : Option (Client tenths_floats ℕ)) × (n : ℕ) × (r : Response) × (was_requested {F = Tenths}
        (requested 0 ∷ slept (tenth 4) ∷ requested 1 ∷ closed ∷ [])
        n
      ≡ true)
    × (script stored c n ≡ answered r)
    × IsCompleted r (("link", link) ∷ ("file", link) ∷ [])
static_upload-IsCompleted_example =
    static_upload-IsCompleted tenths_floats {T = ℕ} env unbound registry whole (script stored) false
      none (some (pos 2)) none (requested 0 ∷ slept (tenth 4) ∷ requested 1 ∷ closed ∷ [])
      (("link", link) ∷ ("file", link) ∷ []) uploaded
