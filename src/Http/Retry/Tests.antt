-- ===== src/Http/Retry/Tests.antt =====
-- Runs of the retry loop, over tenths of a second and a not-a-number.

use netix_backend.Prelude.{
  ℕ, ◌≡◌, refl, ◌⊎◌, true, false, List, [], ◌∷◌, Option, none, some, String, ltb, leb,
  if◌then◌else◌,
}
use netix_backend.Prelude.Int.{pos}
use netix_backend.Prelude.Tenths.{
  Tenths, tenth, nan, tenths_floats, tenths_ordered, not_number, compare_by,
}
use netix_backend.Text.{upper, translate}
use netix_backend.Http.Retry.{
  Policy, Attempt, answered, failed, network_error, Response, Event, sent, log_status_retry,
  log_exception_retry, log_status_exhausted, closed, slept, Ending, returned, raised,
  other_exception, attempts_from, send_with_retries, round, should_retry, status_delay,
  jittered_backoff, parse_retry_after_seconds, is_retryable_status, is_idempotent_method,
  should_retry_status, retryable_exc,
}
use netix_backend.Http.Retry.Loop.{IsRun, send_with_retries-IsRun}
use netix_backend.Http.Retry.Delays.{retry_after_bounds}

abbrev policy : Policy Tenths
policy = record {
  retries = pos 2;
  backoff_factor = tenth 5;
  retry_non_idempotent = false;
  max_retry_after = tenth 300;
}

-- A 503 with a Retry-After, a network error, then a 200.
abbrev busy : Response
busy = record { status_code = 503; retry_after = some "7" }

abbrev fine : Response
fine = record { status_code = 200; retry_after = none }

abbrev script : ℕ → Attempt
script n =
    if ltb n 1 then answered busy else if ltb n 2 then failed network_error else answered fine

abbrev no_dates : String → Option Tenths
no_dates s = none

abbrev whole : ℕ → Tenths → Tenths
whole n y = y

-- `time.sleep` refuses a not-a-number; there is no negative delay here.
abbrev refuses : Tenths → Option String
refuses d = if not_number d then some "ValueError" else none

retry : Unit {0}
unfolding attempts_from send_with_retries round should_retry status_delay jittered_backoff
    parse_retry_after_seconds is_retryable_status is_idempotent_method should_retry_status
    retryable_exc upper translate
retry = tt

get_run :
    send_with_retries tenths_floats policy "get" no_dates whole refuses script
    ≡ some (
      sent 0
          ∷ log_status_retry 0 (tenth 70)
          ∷ closed 0
          ∷ slept (tenth 70)
          ∷ sent 1
          ∷ log_exception_retry 1 (tenth 10)
          ∷ slept (tenth 10)
          ∷ sent 2
          ∷ [],
      returned fine,
    )
unfolding retry
get_run = refl

post_run :
    send_with_retries tenths_floats policy "POST" no_dates whole refuses script
    ≡ some (sent 0 ∷ [], returned busy)
unfolding retry
post_run = refl

one_attempt :
    send_with_retries tenths_floats
      (record policy { retries = pos 0 })
      "GET"
      no_dates
      whole
      refuses
      script
    ≡ some (sent 0 ∷ log_status_exhausted 1 ∷ [], returned busy)
unfolding retry
one_attempt = refl

send_with_retries-IsRun_example :
    (trace : List (Event Tenths)) × (ending : Ending) × (send_with_retries tenths_floats policy
        "GET" no_dates whole refuses script
      ≡ some (trace, ending))
    × IsRun tenths_floats policy "GET" no_dates whole refuses script 0 trace ending
send_with_retries-IsRun_example =
    send_with_retries-IsRun tenths_floats policy "GET" no_dates whole refuses script

-- A Retry-After of "nan" ends the loop with the exception of the sleep.
nan_run :
    (send_with_retries tenths_floats policy "GET" no_dates whole refuses
      λ n. answered record { status_code = 503; retry_after = some "nan" })
    ≡ some (sent 0 ∷ log_status_retry 0 nan ∷ closed 0 ∷ [], raised (other_exception "ValueError"))
unfolding retry
nan_run = refl

seven : parse_retry_after_seconds tenths_floats no_dates busy (tenth 300) ≡ some (tenth 70)
unfolding retry
seven = refl

retry_after_bounds_example :
    (not_number (tenth 70) ≡ true)
    ⊎ ((compare_by leb (tenth 0) (tenth 70) ≡ true)
        × (compare_by leb (tenth 70) (tenth 300) ≡ true))
retry_after_bounds_example =
    retry_after_bounds tenths_floats tenths_ordered no_dates busy (tenth 300) (tenth 70) refl refl
      refl seven
