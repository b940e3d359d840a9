-- ===== src/Asgi/Registration.antt =====
-- netix_backend/asgi/registration.py: the service's registration with update-service.
pub mod Attempts
pub mod Heartbeat
pub mod Once
mod Tests
use netix_backend.Prelude.{
  ℕ, zero, suc, ◌+◌, ◌==◌, Bool, true, false, not, ◌&&◌, ◌||◌, List, [], ◌∷◌, ◌++◌, Option, none,
  some, String, str_eq, if◌then◌else◌, leb, ltb,
}
use netix_backend.Prelude.Dict
use netix_backend.Prelude.Dict.{Dict}
use netix_backend.Env.{Environ, flag, env_bool, lookup}

abbrev pub enabled_env : String
enabled_env = "SERVICE_REGISTRATION_ENABLED"

abbrev pub url_env : String
url_env = "UPDATE_SERVICE_REGISTRATION_URL"

abbrev pub token_env : String
token_env = "SERVICE_REGISTRATION_TOKEN"

-- Each field of the payload, and the variable that it is read from.
abbrev pub registration_fields : Dict String
registration_fields =
    ("name", "SERVICE_NAME")
    ∷ ("display_name", "SERVICE_DISPLAY_NAME")
    ∷ ("description", "SERVICE_DESCRIPTION")
    ∷ ("version", "APP_VERSION")
    ∷ ("environment", "SERVICE_REGISTRATION_ENVIRONMENT")
    ∷ ("base_url", "SERVICE_PUBLIC_BASE_URL")
    ∷ ("internal_base_url", "SERVICE_INTERNAL_BASE_URL")
    ∷ []

unfoldable pub registration_enabled : Environ → Bool
registration_enabled env = env_bool env enabled_env (flag false)

-- env_str(name, "")
abbrev pub text_or_empty : Option String → String
text_or_empty none = ""
text_or_empty (some s) = s

unfoldable pub read_text : Environ → String → String
read_text env name = text_or_empty (lookup env name)

unfoldable pub field_values : Environ → Dict String → Dict String
field_values env [] = []
field_values env ((field, env_name) ∷ fields) =
    (field, read_text env env_name) ∷ field_values env fields

-- The variables of the fields that have no value.
unfoldable pub missing_fields : Environ → Dict String → List String
missing_fields env [] = []
missing_fields env ((field, env_name) ∷ fields) =
    let rest = missing_fields env fields in
    if str_eq (read_text env env_name) "" then env_name ∷ rest else rest

abbrev pub if_empty : String → String → List String
if_empty name value = if str_eq value "" then name ∷ [] else []

unfoldable pub missing : Environ → List String
missing env =
    missing_fields env registration_fields
    ++ (if_empty url_env (read_text env url_env) ++ if_empty token_env (read_text env token_env))

pub record Configuration : Type 0 where
  pub url : String
  pub token : String
  pub payload : Dict String

-- The triple, or the variables that the error names; `none` with no names where it is disabled.
abbrev pub configured : Environ → List String → Option Configuration × List String
configured env [] = (
  some (record {
    url = read_text env url_env;
    token = read_text env token_env;
    payload = field_values env registration_fields;
  }),
  [],
)
configured env (name ∷ names) = (none, name ∷ names)

unfoldable pub registration_payload : Environ → Option Configuration × List String
registration_payload env =
    if registration_enabled env then configured env (missing env) else (none, [])

-- What one `_put` gives: the status of the reply, or an exception.
pub data Put : Type 0 where
  replied : (status : ℕ) → Put
  put_failed : Put

-- 200 <= response.status < 300; every other reply raises an OSError.
unfoldable pub put_accepted : Put → Bool
put_accepted (replied status) = leb 200 status && ltb status 300
put_accepted put_failed = false

-- What `register` does, over delays of a type `D`; an attempt is named by its number.
pub data Event (D : Type 0) : Type 0 where
  slept : D → Event D
  put registered log_exception log_warning : ℕ → Event D

module _ {D : Type 0} (is_zero : D → Bool) (puts : ℕ → Put) where
  abbrev pub wait : D → List (Event D)
  wait delay = if is_zero delay then [] else slept delay ∷ []

  abbrev pub log_failure : ℕ → List D → Event D
  log_failure attempt [] = log_exception attempt
  log_failure attempt (delay ∷ delays) = log_warning attempt

  -- The loop over the delays that are left, from an attempt's number.
  unfoldable pub register_from : ℕ → List D → List (Event D) × Bool
  register_from attempt [] = ([], false)
  register_from attempt (delay ∷ delays) =
      let (rest, done) = register_from (suc attempt) delays in
      if put_accepted (puts attempt)
      then (wait delay ++ put attempt ∷ registered attempt ∷ [], true)
      else (wait delay ++ put attempt ∷ log_failure attempt delays ∷ rest, done)

  abbrev pub register_configured : List D → Option Configuration → List (Event D) × Bool
  register_configured retry_delays none = ([], false)
  register_configured retry_delays (some configuration) = register_from 1 retry_delays

  unfoldable pub register : Environ → List D → List (Event D) × Bool
  register env retry_delays = register_configured retry_delays (registration_payload env).0

-- The process's latch: whether it is set, how many threads were started, the number of the event
-- that stops the heartbeats of now, and the numbers of those that are set.
pub record Latch : Type 0 where
  pub started : Bool
  pub threads : ℕ
  pub stop_event : ℕ
  pub stopped : List ℕ

unfoldable pub registration_started : Latch → Bool
registration_started l = l.started

unfoldable pub reset_registration_state : Latch → Latch
reset_registration_state l = record l {
  started = false;
  stop_event = suc l.stop_event;
  stopped = l.stop_event ∷ l.stopped;
}

unfoldable pub trigger_service_registration : Environ → Latch → Bool × Latch
trigger_service_registration env l =
    if not (registration_enabled env)
    then (false, l)
    else if l.started
    then (false, l)
    else (true, record l { started = true; threads = suc l.threads })

-- `ServiceRegistrationASGI`, over the type of a scope.
unfoldable pub registration_asgi : Environ → String → Latch → Latch
registration_asgi env kind l =
    if str_eq kind "http" then (trigger_service_registration env l).1 else l

unfoldable pub registration_wsgi : Environ → Latch → Latch
registration_wsgi env l = (trigger_service_registration env l).1
