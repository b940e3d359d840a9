-- ===== src/Asgi/Timeout/Tests.antt =====
-- A request that is begun too late, and one that is not begun at all.
use netix_backend.Asgi.Timeout.Soundness.{starts}
use netix_backend.Prelude.{◌≡◌, ◌≤◌, refl, List, [], ◌∷◌, ◌++◌, none, some, arith}
use netix_backend.Prelude.Int.{pos}
use netix_backend.Asgi.Timeout.{
  response_start, Middleware, Scope, Event, app_sends, app_ends, time_is_up, text_messages,
  safe_methods, never_shed, admit, shed, fresh_call, run, step, time_out, abandon, channel_send,
  is_capped,
}
use netix_backend.Asgi.Timeout.Pool.{pool_at, pool_while_left_running}
use netix_backend.Asgi.Timeout.Wire.{one_response_start, unanswered_gets_504}

abbrev middleware : Middleware
middleware = record {
  safe_methods = some safe_methods;
  never_shed = never_shed;
  max_abandoned = pos 2;
  retry_after = some (pos 5);
  error_body = text_messages;
  timeout_message = "late";
  overloaded_message = "busy";
}

abbrev scope : Scope
scope = record { kind = "http"; method = some "GET"; path = "/"; headers = [] }

-- The machine, opened.
machine : Unit {0}
unfolding text_messages admit run step time_out abandon channel_send is_capped
machine = tt

full : admit middleware scope 7 (1 ∷ 2 ∷ []) ≡ shed (text_messages 503 "busy" scope (some (pos 5)))
unfolding machine
full = refl

abbrev late : List Event
late = time_is_up ∷ app_sends (response_start 200 []) ∷ app_ends ∷ []

one_response_start_example : starts (run middleware scope late (fresh_call 7 [])).wire ≤ 1
one_response_start_example =
    one_response_start middleware scope (unfold text_messages in refl) 7 [] late (omega arith)

unanswered_gets_504_example :
    (run middleware scope late (fresh_call 7 [])).wire ≡ [] ++ text_messages 504 "late" scope none
unfolding run
unanswered_gets_504_example =
    unanswered_gets_504 middleware scope (unfold text_messages in refl) 7 [] []
      (app_sends (response_start 200 []) ∷ app_ends ∷ []) (unfold run in refl) (unfold run in refl)

pool_while_left_running_example :
    (run middleware scope (time_is_up ∷ []) (fresh_call 7 (3 ∷ []))).abandoned_tasks
    ≡ pool_at 7 (3 ∷ []) (run middleware scope (time_is_up ∷ []) (fresh_call 7 (3 ∷ []))).phase
pool_while_left_running_example =
    pool_while_left_running middleware scope 7 (3 ∷ []) refl (time_is_up ∷ [])
