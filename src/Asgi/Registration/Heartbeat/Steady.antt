-- ===== src/Asgi/Registration/Heartbeat/Steady.antt =====
-- A heartbeat goes on through failures until it is stopped.
use Prim.Native.Nat.{◌/◌}
use netix_backend.Prelude.{
  Bool, not, ◌==◌, ◌⊎◌, inl, inr, none, Bool-cases, arith, ◌≡◌, refl, ap, ◌∙◌, true, false, List,
  [], ◌∷◌, ◌++◌, some, if◌then◌else◌,
}
use netix_backend.Asgi.Registration.{
  Configuration, registration_payload, Put, replied, put_failed, put_accepted,
}
use netix_backend.Asgi.Registration.Heartbeat.{
  Beat, BeatEvent, beat_events, beat_then, heartbeat_run, beat_put, log_heartbeat_warning,
}

-- The waits end with the event not set and the service still configured, as `configurations`.
abbrev pub IsConfigured : List Beat → List Configuration → Type 0
IsConfigured [] [] = Unit
IsConfigured (beat ∷ beats) (configuration ∷ configurations) =
    (beat.stop_is_set ≡ false)
    × ((registration_payload beat.env).0 ≡ some configuration)
    × IsConfigured beats configurations
IsConfigured _ _ = ⊥

-- A put fails unless it is replied to with a status of the class 2xx.
abbrev pub fails : Put → Bool
fails put_failed = true
fails (replied status) = not (status / 100 == 2)

-- One put for each wait, and a warning behind each that fails.
abbrev pub steady : List Beat → List Configuration → List BeatEvent
steady (beat ∷ beats) (configuration ∷ configurations) =
    beat_put configuration ∷ (if fails beat.put then log_heartbeat_warning ∷ [] else [])
    ++ steady beats configurations
steady _ _ = []

events-fails :
    (c : Configuration) (put : Put)
    → beat_events c put ≡ beat_put c ∷ (if fails put then log_heartbeat_warning ∷ [] else [])
unfolding put_accepted
events-fails c put_failed = refl
events-fails c (replied status) = elim (Bool-cases (status / 100 == 2)) [
  | inl success ↦ rw success (ground arith)
  | inr failure ↦ rw failure (ground arith)
]

-- While the service is configured a heartbeat puts the configuration of the moment after every
-- wait, whatever the earlier puts gave, and warns of each that raises or is not replied to with a
-- status of the class 2xx; once its event is set, or the service is no longer configured, it puts
-- nothing more, whatever comes after.
pub heartbeat_run-steady :
    (beats later : List Beat) (stop : Beat) (configurations : List Configuration)
    → IsConfigured beats configurations
    → (stop.stop_is_set ≡ true) ⊎ ((registration_payload stop.env).0 ≡ none)
    → heartbeat_run (beats ++ stop ∷ later) ≡ steady beats configurations
unfolding heartbeat_run
heartbeat_run-steady [] later stop [] h (inl is_set) = rw is_set refl
heartbeat_run-steady [] later stop [] h (inr gone) = elim (Bool-cases stop.stop_is_set) [
  | inl is_set ↦ rw is_set refl
  | inr open_event ↦ rw (open_event, gone) refl
]
heartbeat_run-steady [] later stop (c ∷ cs) h ends = absurd h
heartbeat_run-steady (beat ∷ beats) later stop [] h ends = absurd h
heartbeat_run-steady (beat ∷ beats) later stop (c ∷ cs) (open_event, here, h) ends =
    ap
      (λ b.
        if b
        then []
        else beat_then beat.put (registration_payload beat.env).0
            (heartbeat_run (beats ++ stop ∷ later)))
      open_event
    ∙ ap (λ o. beat_then beat.put o (heartbeat_run (beats ++ stop ∷ later))) here
    ∙ ap (λ es. es ++ heartbeat_run (beats ++ stop ∷ later)) (events-fails c beat.put)
    ∙ ap (λ es. beat_put c ∷ (if fails beat.put then log_heartbeat_warning ∷ [] else []) ++ es)
        (heartbeat_run-steady beats later stop cs h ends)
