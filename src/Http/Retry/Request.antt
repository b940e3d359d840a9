-- ===== src/Http/Retry/Request.antt =====
-- `request_with_retry` and `post_with_retry` of netix_backend/http/retry.py: under a deadline, or by
-- the retry policy of a transport.
mod Post
mod Tests
use netix_backend.Prelude.{ℕ, Bool, List, Option, none, some, String, Result, ok, ◌>>=◌}
use netix_backend.Prelude.Int.{ℤ}
use netix_backend.Prelude.Floats.{Floats}
use netix_backend.Env.{Environ, ConfigurationError}
use netix_backend.Http.Retry
use netix_backend.Http.Retry.{
  Policy, Bound, Attempt, given, default_retries, default_backoff, init_policy, send_with_retries,
}
use netix_backend.Http.Retry.Deadline
use netix_backend.Http.Retry.Deadline.{Timeout, request_within_deadline}

-- `max_retry_after` where the caller leaves it out.
abbrev pub max_retry_after_seconds : (f : Floats) → f.F
max_retry_after_seconds f = f.tenths 300

-- The transport of the client: one built for the call, or the injected one in the policy's wrapper.
pub data Chosen (T : Type 0) : Type 0 where
  retry_transport : Chosen T
  wrapper : T → Chosen T

pub data Call (F T : Type 0) : Type 0 where
  within_deadline : Option T → List (Deadline.Event F) × Deadline.Ending → Call F T
  by_policy : Chosen T → Policy F → Option (List (Retry.Event F) × Retry.Ending) → Call F T

abbrev pub inner : {T : Type 0} → Chosen T → Option T
inner retry_transport = none
inner (wrapper t) = some t

abbrev pub choose : {T : Type 0} → Option T → Chosen T
choose none = retry_transport
choose (some t) = wrapper t

-- What a caller may pass; `none` is the parameter left out.
pub record Options (F T : Type 0) : Type 0 where
  pub timeout : Timeout F
  pub retries : Option ℤ
  pub backoff_factor : Option F
  pub retry_non_idempotent : Bool
  pub deadline : Option F
  pub transport : Option T

-- `until`, `draws`, `refuses` and `clock` as in the two loops; `send t n` is what attempt `n` gives through
-- transport `t`, `none` being httpx's own.
module _ (f : Floats) {T : Type 0} (env : Environ) (bound : Bound f.F) (until : String → Option f.F)
    (draws : ℕ → f.F → f.F) (refuses : f.F → Option String) (clock : ℕ → f.F)
    (send : Option T → ℕ → Attempt) where
  -- RetryTransport.handle_request, and RetryTransportWrapper.handle_request
  unfoldable pub handle_request :
      Chosen T → Policy f.F → String → Option (List (Retry.Event f.F) × Retry.Ending)
  handle_request transport policy method =
      send_with_retries f policy method until draws refuses (send (inner transport))

  abbrev by_deadline :
      String → Options f.F T → ℤ → f.F → Option f.F → Result ConfigurationError (Call f.F T)
  by_deadline method o attempts factor (some deadline) = ok (
      within_deadline o.transport (
        request_within_deadline f method o.timeout deadline attempts factor o.retry_non_idempotent
          clock draws (send o.transport)))
  by_deadline method o attempts factor none = do
    policy ←
        init_policy f env bound (some attempts) (some factor) o.retry_non_idempotent
          (max_retry_after_seconds f)
    ok (by_policy (choose o.transport) policy (handle_request (choose o.transport) policy method))

  unfoldable pub request_with_retry :
      String → Options f.F T → Result ConfigurationError (Call f.F T)
  request_with_retry method o = do
    attempts ← given o.retries (default_retries f env bound)
    factor ← given o.backoff_factor (default_backoff f env bound)
    by_deadline method o attempts factor o.deadline

  unfoldable pub post_with_retry : Options f.F T → Result ConfigurationError (Call f.F T)
  post_with_retry o = request_with_retry "POST" o
