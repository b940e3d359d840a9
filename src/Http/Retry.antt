-- ===== src/Http/Retry.antt =====
-- netix_backend/http/retry.py: the retry policy, its two loops, and its defaults.
pub mod Deadline
pub mod Delays
pub mod Loop
pub mod Request
pub mod Twins
mod Tests
use mathlib.Core.Option
use netix_backend.Prelude.{
  ℕ, zero, suc, ◌+◌, ◌^◌, ◌≡◌, Bool, true, false, not, ◌||◌, List, [], ◌∷◌, ◌++◌, Option, none,
  some, String, contains, str_eq, leb, ◌==◌, if◌then◌else◌, Result, ok, ◌>>=◌, err,
}
use netix_backend.Prelude.Int.{ℤ, pos, pos_part, leb_ℤ}
use netix_backend.Prelude.Floats.{Floats, fmin, fmax}
use netix_backend.Text.{upper}
use netix_backend.Env.{Environ, ConfigurationError, env_int, env_float, or_default}

abbrev pub default_retry_count : ℤ
default_retry_count = pos 2

abbrev pub idempotent_methods : List String
idempotent_methods = "GET" ∷ "HEAD" ∷ "OPTIONS" ∷ []

-- What `httpx` raises; the first three are RETRYABLE_EXC, with their subclasses.
pub data SendError : Type 0 where
  network_error timeout_exception remote_protocol_error : SendError
  other_exception : String → SendError

unfoldable pub retryable_exc : SendError → Bool
retryable_exc (other_exception name) = false
retryable_exc _ = true

pub record Response : Type 0 where
  pub status_code : ℕ
  -- the Retry-After header
  pub retry_after : Option String

-- What one call of `send` gives.
pub data Attempt : Type 0 where
  answered : Response → Attempt
  failed : SendError → Attempt

unfoldable pub is_idempotent_method : String → Bool
is_idempotent_method method = contains idempotent_methods (upper method)

unfoldable pub is_retryable_status : ℕ → Bool
is_retryable_status status_code = (status_code == 408 || status_code == 429) || leb 500 status_code

unfoldable pub should_retry_status : String → ℕ → Bool → Bool
should_retry_status method status_code retry_non_idempotent =
    if not (is_retryable_status status_code)
    then false
    else retry_non_idempotent || is_idempotent_method method

pub record Policy (F : Type 0) : Type 0 where
  pub retries : ℤ
  pub backoff_factor : F
  pub retry_non_idempotent : Bool
  pub max_retry_after : F

-- The aliases that `bind_django_settings` keeps.
pub record Bound (F : Type 0) : Type 0 where
  pub retries : Option F
  pub backoff : Option F

abbrev pub unbound : {F : Type 0} → Bound F
unbound = record { retries = none; backoff = none }

-- What the loop does, in order; an attempt is named by its number.
pub data Event (F : Type 0) : Type 0 where
  sent : ℕ → Event F
  log_status_retry log_exception_retry : ℕ → F → Event F
  log_status_exhausted log_exception_exhausted : (attempts : ℕ) → Event F
  closed aclosed : ℕ → Event F
  slept : F → Event F

pub data Ending : Type 0 where
  returned : Response → Ending
  raised : SendError → Ending

-- One round of the loop: it ends, or sleeps and goes on.
pub data Round (F : Type 0) : Type 0 where
  stop : List (Event F) → Ending → Round F
  again : List (Event F) → F → Round F

-- What `requests_session_with_retry` hands to urllib3's `Retry`.
pub record SessionRetry (F : Type 0) : Type 0 where
  pub total : ℤ
  pub connect : ℤ
  pub read : ℤ
  pub status : ℤ
  pub backoff_factor : F
  pub status_forcelist : List ℕ
  pub allowed_methods : List String

abbrev pub session_status_forcelist : List ℕ
session_status_forcelist = 408 ∷ 429 ∷ 500 ∷ 502 ∷ 503 ∷ 504 ∷ []

-- `default() if value is None else value`
abbrev pub given {ℓ} :
    {A : Type ℓ} → Option A → Result ConfigurationError A → Result ConfigurationError A
given none default = default
given (some a) default = ok a

module _ (f : Floats) where
  open f use {F, tenths, of_int, truncate, parse_float, plus, minus, times, half}

  -- An alias that is not given, or names no setting, leaves the knob alone.
  abbrev bind_knob : (String → Option F) → Option String → Option F → Option F
  bind_knob settings none old = old
  bind_knob settings (some name) old = elim (settings name) [ none ↦ old | some v ↦ some v ]

  unfoldable pub bind_django_settings :
      (String → Option F) → Option String → Option String → Bound F → Bound F
  bind_django_settings settings retries_setting backoff_setting b = record {
    retries = bind_knob settings retries_setting b.retries;
    backoff = bind_knob settings backoff_setting b.backoff;
  }

  unfoldable pub unbind_django_settings : Bound F → Bound F
  unbind_django_settings b = unbound

  unfoldable pub default_retries : Environ → Bound F → Result ConfigurationError ℤ
  default_retries env b =
      env_int env "NETIX_HTTP_RETRIES"
        (or_default default_retry_count (Option.map truncate b.retries))

  unfoldable pub default_backoff : Environ → Bound F → Result ConfigurationError F
  default_backoff env b =
      env_float parse_float env "NETIX_HTTP_RETRY_BACKOFF" (or_default (tenths 5) b.backoff)

  -- `_init_policy`: only None falls back, so `retries=0` stays 0.
  unfoldable pub init_policy :
      Environ → Bound F → Option ℤ → Option F → Bool → F → Result ConfigurationError (Policy F)
  init_policy env b retries backoff_factor retry_non_idempotent max_retry_after = do
    count ← given retries (default_retries env b)
    factor ← given backoff_factor (default_backoff env b)
    ok (record {
      retries = count;
      backoff_factor = factor;
      retry_non_idempotent = retry_non_idempotent;
      max_retry_after = max_retry_after;
    })

  unfoldable pub requests_session_with_retry :
      Environ
      → Bound F
      → Option ℤ
      → Option F
      → List String
      → Result ConfigurationError (SessionRetry F)
  requests_session_with_retry env b retries backoff_factor allowed_methods = do
    total ← given retries (default_retries env b)
    factor ← given backoff_factor (default_backoff env b)
    ok (record {
      total = total;
      connect = total;
      read = total;
      status = total;
      backoff_factor = factor;
      status_forcelist = session_status_forcelist;
      allowed_methods = allowed_methods;
    })

  -- `uniform y` is the draw of `random.uniform(0, y)`.
  unfoldable pub jittered_backoff : F → ℕ → (F → F) → F
  jittered_backoff backoff_factor attempt uniform =
      let cap = times backoff_factor (of_int (pos (2 ^ attempt))) in
      plus (half cap) (uniform (half cap))

  -- min(max(x, 0.0), max_retry_after)
  abbrev pub clamp : F → F → F
  clamp max_retry_after x = fmin f (fmax f x (tenths 0)) max_retry_after

  -- The seconds form, else the HTTP date; `until` gives the seconds from now to a date, `none` if
  -- the text is no date.
  abbrev pub either_form : (String → Option F) → F → String → Option F → Option F
  either_form until max_retry_after value none = Option.map (clamp max_retry_after) (until value)
  either_form until max_retry_after value (some seconds) = some (clamp max_retry_after seconds)

  abbrev pub header_seconds : (String → Option F) → F → Option String → Option F
  header_seconds until max_retry_after none = none
  header_seconds until max_retry_after (some value) =
      if str_eq value "" then none else either_form until max_retry_after value (parse_float value)

  unfoldable pub parse_retry_after_seconds : (String → Option F) → Response → F → Option F
  parse_retry_after_seconds until response max_retry_after =
      header_seconds until max_retry_after response.retry_after

  module _ (p : Policy F) (method : String) (until : String → Option F) (draws : ℕ → F → F) where
    unfoldable pub should_retry : Response → Bool
    should_retry response = should_retry_status method response.status_code p.retry_non_idempotent

    unfoldable pub status_delay : Response → ℕ → F
    status_delay response attempt =
        or_default (jittered_backoff p.backoff_factor attempt (draws attempt))
          (parse_retry_after_seconds until response p.max_retry_after)

    -- The body of the `while` loop behind the call of `send`; `close` is its way to close.
    unfoldable pub round : (ℕ → Event F) → ℕ → Attempt → Round F
    round close attempt (failed e) =
        if not (retryable_exc e)
        then stop [] (raised e)
        else if leb_ℤ p.retries (pos attempt)
        then stop (log_exception_exhausted (attempt + 1) ∷ []) (raised e)
        else (let delay = jittered_backoff p.backoff_factor attempt (draws attempt) in
            again (log_exception_retry attempt delay ∷ []) delay)
    round close attempt (answered response) =
        if not (should_retry response)
        then stop [] (returned response)
        else if leb_ℤ p.retries (pos attempt)
        then stop (log_status_exhausted (attempt + 1) ∷ []) (returned response)
        else (let delay = status_delay response attempt in
            again (log_status_retry attempt delay ∷ close attempt ∷ []) delay)

    abbrev pub after : List (Event F) → List (Event F) × Ending → List (Event F) × Ending
    after events (rest, ending) = (events ++ rest, ending)

    -- A sleep that raises ends the loop with its exception.
    abbrev pub unless_refused :
        Option String
        → List (Event F)
        → F
        → Option (List (Event F) × Ending)
        → Option (List (Event F) × Ending)
    unless_refused none events delay rest = Option.map (after (events ++ slept delay ∷ [])) rest
    unless_refused (some name) events delay rest = some (events, raised (other_exception name))

    -- `while True:` with fuel; `send n` is what the call in attempt `n` gives, and `refuses` the name
    -- of the exception with which the sleep refuses a delay: `time.sleep` raises a ValueError for a
    -- not-a-number and for a negative one.
    unfoldable pub attempts_from :
        (ℕ → Event F)
        → (F → Option String)
        → (ℕ → Attempt)
        → ℕ
        → ℕ
        → Option (List (Event F) × Ending)
    attempts_from close refuses send zero attempt = none
    attempts_from close refuses send (suc fuel) attempt =
        let rest = attempts_from close refuses send fuel (suc attempt) in
        elim (round close attempt (send attempt)) [
          | stop events ending ↦ some (sent attempt ∷ events, ending)
          | again events delay ↦ unless_refused (refuses delay) (sent attempt ∷ events) delay rest
        ]

    unfoldable pub send_with_retries :
        (F → Option String) → (ℕ → Attempt) → Option (List (Event F) × Ending)
    send_with_retries refuses send = attempts_from closed refuses send (suc (pos_part p.retries)) 0

    unfoldable pub asend_with_retries :
        (F → Option String) → (ℕ → Attempt) → Option (List (Event F) × Ending)
    asend_with_retries refuses send =
        attempts_from aclosed refuses send (suc (pos_part p.retries)) 0
