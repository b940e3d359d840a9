-- ===== src/Asgi/Registration/Tests.antt =====
-- A configured service whose second attempt is accepted.
use netix_backend.Prelude.{
  ℕ, zero, ◌+◌, ◌<◌, ◌==◌, ◌≡◌, ◌≤◌, suc, refl, true, false, Bool, [], ◌∷◌, some, if◌then◌else◌,
  arith, ltb,
}
use netix_backend.Text.{strip, lower, translate}
use netix_backend.Env.{Environ, lookup, env_bool, parse_bool, recognise}
use netix_backend.Asgi.Registration.{
  Put, replied, put_failed, put_accepted, Configuration, registration_payload, registration_enabled,
  field_values, missing, missing_fields, read_text, registration_fields, register, Latch,
}
use netix_backend.Asgi.Registration.Attempts.{attempts, register_until}
use netix_backend.Asgi.Registration.Once.{serve_all, serve_all-threads}

-- The configuration's readers, opened.
config : Unit {0}
unfolding registration_payload registration_enabled field_values missing missing_fields read_text
    lookup env_bool parse_bool recognise strip lower translate put_accepted
config = tt

abbrev all_set : Environ
all_set name = some "on"

abbrev used : Configuration
used = record { url = "on"; token = "on"; payload = field_values all_set registration_fields }

configured : (registration_payload all_set).0 ≡ some used
unfolding config
configured = refl

abbrev is_zero : ℕ → Bool
is_zero n = n == 0

-- The first attempt fails.
abbrev second : ℕ → Put
second n = if ltb n 2 then put_failed else replied 204

first_fails : (j : ℕ) → j < 1 → put_accepted (second (j + 1)) ≡ false
unfolding put_accepted
first_fails zero h = refl
first_fails (suc j) h = absurd (omega arith)

register_until_example :
    ((register is_zero second all_set (0 ∷ 1 ∷ 2 ∷ [])).1 ≡ true)
    × (attempts (register is_zero second all_set (0 ∷ 1 ∷ 2 ∷ [])).0 ≡ 2)
register_until_example =
    register_until is_zero second all_set (0 ∷ 1 ∷ 2 ∷ []) used configured 1 (omega arith)
      first_fails (unfold put_accepted in refl)

abbrev latch : Latch
latch = record { started = false; threads = 0; stop_event = 0; stopped = [] }

serve_all-threads_example :
    (serve_all ((all_set, "lifespan") ∷ (all_set, "http") ∷ (all_set, "http") ∷ []) latch).threads
    ≤ 1
serve_all-threads_example =
    serve_all-threads ((all_set, "lifespan") ∷ (all_set, "http") ∷ (all_set, "http") ∷ []) latch
      refl
