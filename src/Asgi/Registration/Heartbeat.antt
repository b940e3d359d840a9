-- ===== src/Asgi/Registration/Heartbeat.antt =====
-- The threads of netix_backend/asgi/registration.py: `_register_and_heartbeat` and the heartbeat.
mod Steady
mod Tests
use netix_backend.Prelude.{
  ℕ, zero, suc, ◌==◌, Bool, true, false, List, [], ◌∷◌, ◌++◌, map, Option, none, some, String,
  if◌then◌else◌, Result, ok, err, ◌>>=◌, any,
}
use netix_backend.Prelude.Floats.{Floats}
use netix_backend.Env.{Environ, ConfigurationError, env_float}
use netix_backend.Asgi.Registration.{
  Configuration, registration_payload, Put, put_accepted, Event, register, Latch,
}

abbrev pub heartbeat_env : String
heartbeat_env = "SERVICE_REGISTRATION_HEARTBEAT_SECONDS"

abbrev pub heartbeat_seconds : (f : Floats) → f.F
heartbeat_seconds f = f.tenths 600

-- A heartbeat's thread: its interval, and the number of the event that stops it.
pub record Heartbeat (F : Type 0) : Type 0 where
  pub seconds : F
  pub stop_event : ℕ

-- One wait of a heartbeat: whether its event is set when it ends, the environment of then, and what
-- the put would give.
pub record Beat : Type 0 where
  pub stop_is_set : Bool
  pub env : Environ
  pub put : Put

pub data BeatEvent : Type 0 where
  beat_put : Configuration → BeatEvent
  log_heartbeat_warning : BeatEvent

-- A failure is logged, and the next wait follows.
abbrev pub beat_events : Configuration → Put → List BeatEvent
beat_events configuration put =
    if put_accepted put
    then beat_put configuration ∷ []
    else beat_put configuration ∷ log_heartbeat_warning ∷ []

abbrev pub beat_then : Put → Option Configuration → List BeatEvent → List BeatEvent
beat_then put none rest = []
beat_then put (some configuration) rest = beat_events configuration put ++ rest

-- `_heartbeat`, over the waits that there are.
unfoldable pub heartbeat_run : List Beat → List BeatEvent
heartbeat_run [] = []
heartbeat_run (beat ∷ beats) =
    let rest = heartbeat_run beats in
    if beat.stop_is_set then [] else beat_then beat.put (registration_payload beat.env).0 rest

module _ (f : Floats) where
  open f use {F, less_eq, tenths, parse_float}

  abbrev pub interval_of : Environ → Option F → Result ConfigurationError F
  interval_of env (some interval) = ok interval
  interval_of env none = env_float parse_float env heartbeat_env (heartbeat_seconds f)

  -- The heartbeat that is started, if any: it holds the event of the latch of now.
  abbrev pub beating : Latch → F → Option (Heartbeat F)
  beating l seconds =
      if less_eq seconds (tenths 0)
      then none
      else some (record { seconds = seconds; stop_event = l.stop_event })

  unfoldable pub start_heartbeat :
      Environ → Latch → Option F → Result ConfigurationError (Option (Heartbeat F))
  start_heartbeat env l interval = interval_of env interval >>= λ seconds. ok (beating l seconds)

  abbrev pub registering :
      {D : Type 0}
      → (D → Bool)
      → (ℕ → Put)
      → Environ
      → Latch
      → List D
      → Option Configuration
      → List (Event D) × Result ConfigurationError (Option (Heartbeat F))
  registering is_zero puts env l retry_delays none = ([], ok none)
  registering is_zero puts env l retry_delays (some configuration) =
      ((register is_zero puts env retry_delays).0, start_heartbeat env l none)

  -- `_register_and_heartbeat`: the heartbeat follows whether or not the registration was accepted.
  unfoldable pub register_and_heartbeat :
      {D : Type 0}
      → (D → Bool)
      → (ℕ → Put)
      → Environ
      → Latch
      → List D
      → List (Event D) × Result ConfigurationError (Option (Heartbeat F))
  register_and_heartbeat is_zero puts env l retry_delays =
      registering is_zero puts env l retry_delays (registration_payload env).0
