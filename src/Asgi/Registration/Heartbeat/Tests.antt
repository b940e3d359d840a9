-- ===== src/Asgi/Registration/Heartbeat/Tests.antt =====
-- A heartbeat that fails once, and is stopped.
use netix_backend.Prelude.{inl, ◌≡◌, refl, true, false, [], ◌∷◌, ◌++◌, none, some, ok}
use netix_backend.Prelude.Tenths.{tenth, tenths_floats}
use netix_backend.Text.{strip, lstrip, rstrip, is_space, lower, translate}
use netix_backend.Env.{Environ, lookup, env_bool, env_float, parse_bool, recognise}
use netix_backend.Asgi.Registration.{
  Put, replied, put_failed, put_accepted, Configuration, registration_payload, registration_enabled,
  field_values, missing, missing_fields, read_text, registration_fields, Latch,
}
use netix_backend.Asgi.Registration.Heartbeat.{
  Beat, beat_put, log_heartbeat_warning, heartbeat_run, start_heartbeat,
}
use netix_backend.Asgi.Registration.Heartbeat.Steady.{steady, heartbeat_run-steady}

config : Unit {0}
unfolding registration_payload registration_enabled field_values missing missing_fields read_text
    lookup env_bool parse_bool recognise strip lstrip rstrip is_space lower translate put_accepted
    heartbeat_run start_heartbeat env_float
config = tt

abbrev all_set : Environ
all_set name = some "on"

abbrev used : Configuration
used = record { url = "on"; token = "on"; payload = field_values all_set registration_fields }

abbrev beat : Put → Beat
beat put = record { stop_is_set = false; env = all_set; put = put }

abbrev stopped : Beat
stopped = record { stop_is_set = true; env = all_set; put = replied 204 }

abbrev latch : Latch
latch = record { started = true; threads = 1; stop_event = 3; stopped = [] }

configured : (registration_payload all_set).0 ≡ some used
unfolding config
configured = refl

holds_the_event :
    start_heartbeat tenths_floats (λ name. none) latch none
    ≡ ok (some (record { seconds = tenth 600; stop_event = 3 }))
unfolding config
holds_the_event = refl

switched_off : start_heartbeat tenths_floats (λ name. none) latch (some (tenth 0)) ≡ ok none
unfolding config
switched_off = refl

two_beats :
    steady (beat put_failed ∷ beat (replied 204) ∷ []) (used ∷ used ∷ [])
    ≡ beat_put used ∷ log_heartbeat_warning ∷ beat_put used ∷ []
unfolding config
two_beats = refl

heartbeat_run-steady_example :
    heartbeat_run ((beat put_failed ∷ beat (replied 204) ∷ []) ++ stopped ∷ beat (replied 204) ∷ [])
    ≡ steady (beat put_failed ∷ beat (replied 204) ∷ []) (used ∷ used ∷ [])
heartbeat_run-steady_example =
    heartbeat_run-steady (beat put_failed ∷ beat (replied 204) ∷ []) (beat (replied 204) ∷ [])
      stopped (used ∷ used ∷ []) (refl, configured, (refl, configured, tt)) (inl refl)
