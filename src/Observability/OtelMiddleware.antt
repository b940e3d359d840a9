-- ===== src/Observability/OtelMiddleware.antt =====
-- netix_backend/observability/otel_middleware.py: the span of a request on the async path.
mod Spans
mod Tests
use netix_backend.Prelude.{
  ℕ, Bool, true, false, not, List, [], ◌∷◌, ◌++◌, Option, none, some, String, str_eq, if◌then◌else◌,
  Result, ok, err,
}

abbrev pub client_closed_request : ℕ
client_closed_request = 499

-- What happens to a request's span, in order, and the one line that is logged.
pub data Event (E : Type 0) : Type 0 where
  opened : Event E
  exception_recorded : E → Event E
  closed : (status : ℕ) → Event E
  log_not_closed : Event E

-- Upstream's three methods for one request: what each raises, if anything. `process_response` gives
-- back a response for the one that it gets.
pub record Upstream (R E : Type 0) : Type 0 where
  pub process_request : Option E
  pub process_exception : E → Option E
  pub process_response : R → Result E R

-- `is_exception` tells an Exception from another BaseException; `status_of` reads a response.
module _ {R E : Type 0} (is_exception : E → Bool) (status_of : R → ℕ) (closed_request : R)
    (upstream : Upstream R E) where
  -- process_response, as an event and a result; a call that raises leaves the span as it is.
  abbrev pub responded : R → Result E R → List (Event E) × Result E R
  responded response (ok finished) = (closed (status_of response) ∷ [], ok finished)
  responded response (err e) = ([], err e)

  -- The inner `try`: an Exception of the closing is logged; another one takes the place of `exc`.
  abbrev pub logged : E → E → List (Event E) × Result E R
  logged exc e = if is_exception e then (log_not_closed ∷ [], err exc) else ([], err e)

  abbrev pub after_response : E → Result E R → List (Event E) × Result E R
  after_response exc (ok finished) = (closed (status_of closed_request) ∷ [], err exc)
  after_response exc (err e) = logged exc e

  abbrev pub adding : Event E → List (Event E) × Result E R → List (Event E) × Result E R
  adding event (trace, result) = (event ∷ trace, result)

  abbrev pub after_exception : E → Option E → List (Event E) × Result E R
  after_exception exc none =
      adding (exception_recorded exc)
        (after_response exc (upstream.process_response closed_request))
  after_exception exc (some e) = logged exc e

  abbrev pub behind : Result E R → List (Event E) × Result E R
  behind (ok response) = responded response (upstream.process_response response)
  behind (err exc) = after_exception exc (upstream.process_exception exc)

  abbrev pub requested : Option E → Result E R → List (Event E) × Result E R
  requested none outcome = adding opened (behind outcome)
  requested (some e) outcome = ([], err e)

  -- `__acall__`, with what `get_response` gives.
  unfoldable pub acall : Result E R → List (Event E) × Result E R
  acall outcome = requested upstream.process_request outcome

abbrev pub upstream_middleware : String
upstream_middleware =
    "opentelemetry.instrumentation.django.middleware.otel_middleware._DjangoMiddleware"

abbrev pub async_middleware : String
async_middleware = "netix_backend.observability.otel_middleware.AsyncDjangoMiddleware"

abbrev pub swapped : List String → List String
swapped [] = []
swapped (entry ∷ entries) =
    (if str_eq entry upstream_middleware then async_middleware else entry) ∷ swapped entries

-- settings.MIDDLEWARE, `none` where the settings are not configured.
unfoldable pub use_async_middleware : Option (List String) → Option (List String)
use_async_middleware none = none
use_async_middleware (some entries) = some (swapped entries)
