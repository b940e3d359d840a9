-- ===== src/Asgi/Testing/Tests.antt =====
-- Requests of the contract suite, and the cycles of a server.
use netix_backend.Prelude.{ℕ, ◌≡◌, refl, true, false, [], ◌∷◌, Option, some, String}
use netix_backend.Prelude.Int.{ℤ, pos}
use netix_backend.Asgi.Timeout.{
  response_body, Middleware, Scope, safe_methods, never_shed, text_messages, is_capped,
  error_messages, Cors,
}
use netix_backend.Asgi.Testing.{slow_app, first_start, drive}
use netix_backend.Asgi.Testing.Contract.{status_of, outcome_of, drive-slow_app}
use netix_backend.Asgi.Testing.Cycle.{disconnect, woken, send, receive_hang_up}

abbrev ceiling : Middleware
ceiling = record {
  safe_methods = some safe_methods;
  never_shed = never_shed;
  max_abandoned = pos 1;
  retry_after = some (pos 5);
  error_body = text_messages;
  timeout_message = "late";
  overloaded_message = "busy";
}

renders-text :
    (status : ℕ) (message : String) (scope : Scope) (retry_after : Option ℤ)
    → status_of (first_start (text_messages status message scope retry_after)) ≡ some status
unfolding text_messages
renders-text status message scope retry_after = refl

-- The envelope begins its response likewise.
renders-error :
    (dumps : ℕ → String → String) (cors : Cors) (status : ℕ) (message : String) (scope : Scope)
    (retry_after : Option ℤ)
    → status_of (first_start (error_messages dumps cors status message scope retry_after))
      ≡ some status
unfolding error_messages
renders-error dumps cors status message scope retry_after = refl

drive-slow_app_example :
    outcome_of (drive ceiling 50 (slow_app 200) "GET" [] 7 []) ≡ some (504, false)
unfolding is_capped
drive-slow_app_example = drive-slow_app ceiling renders-text 50 200 "GET" [] 7 []

-- A ceiling of 0 still finds an app that only yields.
no_ceiling : outcome_of (drive ceiling 0 (slow_app 0) "GET" [] 7 []) ≡ some (200, true)
unfolding is_capped
no_ceiling = drive-slow_app ceiling renders-text 0 0 "GET" [] 7 []

-- The client that hangs up asks once, and is gone after its time.
hang_up :
    receive_hang_up (record { after = 10; requested = true })
    ≡ (disconnect, 10, record { after = 10; requested = true })
unfolding receive_hang_up
hang_up = refl

-- A receive that waits is woken by the end of the response.
woken_by_body :
    woken (
      send
        (response_body "ok")
        (record { message_event = false; response_complete = false; statuses = 200 ∷ [] }))
    ≡ some (
      disconnect,
      record { message_event = false; response_complete = true; statuses = 200 ∷ [] },
    )
unfolding woken send
woken_by_body = refl
