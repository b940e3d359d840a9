-- ===== src/Http/Retry/Deadline.antt =====
-- `_request_within_deadline` of netix_backend/http/retry.py: retries under one deadline.
pub mod Budget
pub mod Outcome
use netix_backend.Prelude.{
  ℕ, zero, suc, ◌+◌, ◌*◌, Bool, true, false, not, ◌||◌, List, [], ◌∷◌, ◌++◌, Option, none, some,
  String, if◌then◌else◌,
}
use netix_backend.Prelude.Int.{ℤ, pos, negsuc, leb_ℤ}
use netix_backend.Prelude.Floats.{Floats, fmin}
use netix_backend.Http.Retry.{
  Response, SendError, Attempt, answered, failed, retryable_exc, should_retry_status,
  jittered_backoff,
}

-- `httpx.Timeout`; `none` waits without limit.
pub record Timeout (F : Type 0) : Type 0 where
  pub connect : Option F
  pub read : Option F
  pub write : Option F
  pub pool : Option F

-- What the loop does: an attempt with its timeouts, and the sleep behind it.
pub data Event (F : Type 0) : Type 0 where
  requested : ℕ → Timeout F → Event F
  slept : ℕ → F → Event F

pub data Ending : Type 0 where
  returned : Response → Ending
  raised : SendError → Ending
  -- no attempt was completed
  deadline_exceeded : Ending

-- The loop's two variables, once it has ended: a response wins over an exception.
abbrev pub settle : Option Response → Option SendError → Ending
settle (some response) last_exc = returned response
settle none (some e) = raised e
settle none none = deadline_exceeded

-- len(range(retries + 1))
abbrev pub rounds : ℤ → ℕ
rounds (pos n) = suc n
rounds (negsuc n) = 0

module _ (f : Floats) where
  open f use {F, minus, less_eq, tenths}

  -- `_cap`
  unfoldable pub cap : Option F → F → F
  cap none remaining = remaining
  cap (some value) remaining = fmin f value remaining

  unfoldable pub attempt_timeout : Timeout F → F → Timeout F
  attempt_timeout base remaining = record {
    connect = some (cap base.connect remaining);
    read = some (cap base.read remaining);
    write = some (cap base.write remaining);
    pool = some (cap base.pool remaining);
  }

  -- `clock n` is the n-th reading of `time.monotonic()`: 0 starts the deadline, and attempt `n`
  -- reads 2n + 1 before it and 2n + 2 behind it. `draws n y` is the draw of `random.uniform(0, y)`.
  module _ (method : String) (timeout : Timeout F) (end retries_factor : F) (retries : ℤ)
      (retry_non_idempotent : Bool) (clock : ℕ → F) (draws : ℕ → F → F) (send : ℕ → Attempt) where
    abbrev pub remaining_before : ℕ → F
    remaining_before attempt = minus end (clock (2 * attempt + 1))

    abbrev pub budget_after : ℕ → F
    budget_after attempt = minus end (clock (2 * attempt + 2))

    abbrev pub is_spent : F → Bool
    is_spent seconds = less_eq seconds (tenths 0)

    abbrev pub add_events : List (Event F) → List (Event F) × Ending → List (Event F) × Ending
    add_events events (trace, ending) = (events ++ trace, ending)

    -- Behind an attempt: the loop ends, or sleeps and goes on with `rest`.
    unfoldable pub pause :
        ℕ → Option Response → Option SendError → List (Event F) × Ending → List (Event F) × Ending
    pause attempt last_response last_exc rest =
        if leb_ℤ retries (pos attempt) || is_spent (budget_after attempt)
        then ([], settle last_response last_exc)
        else add_events
            (slept attempt (
                fmin f (jittered_backoff f retries_factor attempt (draws attempt))
                  (budget_after attempt))
              ∷ [])
            rest

    -- What an attempt leads to; `rest` goes on from the two variables.
    unfoldable pub outcome :
        ℕ
        → Option Response
        → Option SendError
        → (Option Response → Option SendError → List (Event F) × Ending)
        → Attempt
        → List (Event F) × Ending
    outcome attempt last_response last_exc rest (failed e) =
        if retryable_exc e
        then pause attempt last_response (some e) (rest last_response (some e))
        else ([], raised e)
    outcome attempt last_response last_exc rest (answered response) =
        if should_retry_status method response.status_code retry_non_idempotent
        then pause attempt (some response) last_exc (rest (some response) last_exc)
        else ([], returned response)

    -- `for attempt in range(retries + 1)`, with the rounds that are left.
    unfoldable pub attempts_within :
        ℕ → ℕ → Option Response → Option SendError → List (Event F) × Ending
    attempts_within zero attempt last_response last_exc = ([], settle last_response last_exc)
    attempts_within (suc left) attempt last_response last_exc =
        if is_spent (remaining_before attempt)
        then ([], settle last_response last_exc)
        else add_events
            (requested attempt (attempt_timeout timeout (remaining_before attempt)) ∷ [])
            (outcome attempt last_response last_exc (attempts_within left (suc attempt))
              (send attempt))

  -- The whole call, with its deadline counted from the clock's first reading.
  unfoldable pub request_within_deadline :
      String
      → Timeout F
      → F
      → ℤ
      → F
      → Bool
      → (ℕ → F)
      → (ℕ → F → F)
      → (ℕ → Attempt)
      → List (Event F) × Ending
  request_within_deadline method timeout deadline retries backoff_factor retry_non_idempotent clock
        draws send =
      attempts_within method timeout (f.plus (clock 0) deadline) backoff_factor retries
        retry_non_idempotent clock draws send (rounds retries) 0 none none
