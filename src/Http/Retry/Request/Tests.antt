-- ===== src/Http/Retry/Request/Tests.antt =====
-- Calls of `post_with_retry` and `request_with_retry`, over tenths of a second.
use netix_backend.Prelude.{
  ℕ, ◌*◌, ◌≤◌, ◌≡◌, ◌==◌, refl, false, List, [], ◌∷◌, Option, none, some, String, Result, ok,
  if◌then◌else◌,
}
use netix_backend.Prelude.Int.{pos, negsuc}
use netix_backend.Prelude.Tenths.{Tenths, tenth, tenths_floats, tenths_ordered}
use netix_backend.Env.{Environ, ConfigurationError}
use netix_backend.Text.{upper, translate}
use netix_backend.Http.Retry.{
  Response, Attempt, answered, failed, network_error, unbound, init_policy, attempts_from,
  send_with_retries, round, should_retry, status_delay, jittered_backoff, parse_retry_after_seconds,
  is_retryable_status, is_idempotent_method, should_retry_status, retryable_exc,
}
use netix_backend.Http.Retry.Deadline
use netix_backend.Http.Retry.Deadline.{
  Timeout, pause, outcome, attempts_within, attempt_timeout, cap, request_within_deadline,
}
use netix_backend.Http.Retry.Deadline.Outcome.{IsRun, request_within_deadline-IsRun}
use netix_backend.Http.Retry.Deadline.Budget.{InBudget, request_within_deadline-InBudget}
use netix_backend.Http.Retry.Request.{
  Call, within_deadline, Options, handle_request, request_with_retry, post_with_retry,
}
use netix_backend.Http.Retry.Request.Post.{attempts_of, post_with_retry-answered}

abbrev empty_env : Environ
empty_env name = none

abbrev no_dates : String → Option Tenths
no_dates s = none

abbrev whole : ℕ → Tenths → Tenths
whole n y = y

abbrev refuses : Tenths → Option String
refuses d = none

-- Half a second between two readings.
abbrev ticks : ℕ → Tenths
ticks n = tenth (5 * n)

abbrev busy : Response
busy = record { status_code = 503; retry_after = none }

-- A network error, and then a 503 for ever.
abbrev script : Option ℕ → ℕ → Attempt
script t n = if n == 0 then failed network_error else answered busy

abbrev unlimited : Timeout Tenths
unlimited = record { connect = none; read = some (tenth 20); write = none; pool = none }

abbrev options : Options Tenths ℕ
options = record {
  timeout = unlimited;
  retries = some (pos 4);
  backoff_factor = some (tenth 2);
  retry_non_idempotent = false;
  deadline = some (tenth 300);
  transport = some 7;
}

calls : Unit {0}
unfolding attempts_from send_with_retries round should_retry status_delay jittered_backoff
    parse_retry_after_seconds is_retryable_status is_idempotent_method should_retry_status
    retryable_exc upper translate pause outcome attempts_within attempt_timeout cap
    request_within_deadline handle_request request_with_retry post_with_retry init_policy
calls = tt

abbrev post : Options Tenths ℕ → Result ConfigurationError (Call Tenths ℕ)
post o = post_with_retry tenths_floats empty_env unbound no_dates whole refuses ticks script o

abbrev posted_call : Call Tenths ℕ
posted_call = within_deadline (some 7) (
  Deadline.requested 0 (record {
    connect = some (tenth 295);
    read = some (tenth 20);
    write = some (tenth 295);
    pool = some (tenth 295);
  })
      ∷ Deadline.slept 0 (tenth 2)
      ∷ Deadline.requested 1 (record {
        connect = some (tenth 285);
        read = some (tenth 20);
        write = some (tenth 285);
        pool = some (tenth 285);
      })
      ∷ [],
  Deadline.returned busy,
)

posted : post options ≡ ok posted_call
unfolding calls
posted = refl

post_with_retry-answered_example : attempts_of posted_call ≤ 2
post_with_retry-answered_example =
    post_with_retry-answered tenths_floats empty_env unbound no_dates whole refuses ticks script
      options _ 1 busy refl posted refl

-- A response that is retried wins over the exception behind it.
earlier_response :
    (request_within_deadline tenths_floats "GET" unlimited
      (tenth 300)
      (pos 1)
      (tenth 2)
      false
      ticks
      whole
      (λ n. if n == 0 then answered busy else failed network_error)).1
    ≡ Deadline.returned busy
unfolding calls
earlier_response = refl

no_attempt :
    request_within_deadline tenths_floats "GET" unlimited
      (tenth 300)
      (negsuc 0)
      (tenth 2)
      false
      ticks
      whole
      (script none)
    ≡ ([], Deadline.deadline_exceeded)
unfolding calls
no_attempt = refl

request_within_deadline-IsRun_example :
    (trace : List (Deadline.Event Tenths)) × (ending : Deadline.Ending) × (request_within_deadline
        tenths_floats "GET" unlimited
        (tenth 40)
        (pos 4)
        (tenth 2)
        false
        ticks
        whole
        (script none)
      ≡ (trace, ending))
    × IsRun tenths_floats "GET" unlimited
        (tenth 40)
        (tenth 2)
        (pos 4)
        false
        ticks
        whole
        (script none)
        5
        0
        none
        none
        trace
        ending
request_within_deadline-IsRun_example =
    request_within_deadline-IsRun tenths_floats "GET" unlimited (tenth 40) (pos 4) (tenth 2) false
      ticks whole (script none)

request_within_deadline-InBudget_example :
    InBudget tenths_floats
      (tenth 40)
      ticks
      (request_within_deadline tenths_floats "GET" unlimited
        (tenth 40)
        (pos 4)
        (tenth 2)
        false
        ticks
        whole
        (script none)).0
request_within_deadline-InBudget_example =
    request_within_deadline-InBudget tenths_floats tenths_ordered "GET" unlimited (tenth 40) (pos 4)
      (tenth 2) false ticks whole (script none)
