-- ===== src/Observability/OtelMiddleware/Spans.antt =====
-- How a span ends, and what a caller sees of it.
use netix_backend.Prelude.{
  ℕ, suc, ◌≡◌, refl, ap, Bool, true, List, [], ◌∷◌, Option, none, some, Result, ok, err,
}
use netix_backend.Observability.OtelMiddleware.{
  Event, opened, closed, log_not_closed, Upstream, acall, after_response, after_exception,
}

-- How many spans are opened, closed, and given up with a line in the log.
abbrev pub openings : {E : Type 0} → List (Event E) → ℕ
openings [] = 0
openings (opened ∷ es) = suc (openings es)
openings (_ ∷ es) = openings es

abbrev pub endings : {E : Type 0} → List (Event E) → ℕ
endings [] = 0
endings (closed status ∷ es) = suc (endings es)
endings (log_not_closed ∷ es) = suc (endings es)
endings (_ ∷ es) = endings es

module _ {R E : Type 0} (is_exception : E → Bool) (status_of : R → ℕ) (closed_request : R)
    (upstream : Upstream R E) where
  after_response-endings :
      (exc : E) (r : Result E R)
      → ((e : E) → r ≡ err e → is_exception e ≡ true)
      → (endings (after_response is_exception status_of closed_request upstream exc r).0 ≡ 1)
        × ((after_response is_exception status_of closed_request upstream exc r).1 ≡ err exc)
        × (openings (after_response is_exception status_of closed_request upstream exc r).0 ≡ 0)
  after_response-endings exc (ok finished) h = (refl, refl, refl)
  after_response-endings exc (err e) h = rw (h e refl) (refl, refl, refl)

  after_exception-endings :
      (exc : E) (o : Option E)
      → ((e : E) → o ≡ some e → is_exception e ≡ true)
      → ((e : E) → upstream.process_response closed_request ≡ err e → is_exception e ≡ true)
      → (endings (after_exception is_exception status_of closed_request upstream exc o).0 ≡ 1)
        × ((after_exception is_exception status_of closed_request upstream exc o).1 ≡ err exc)
        × (openings (after_exception is_exception status_of closed_request upstream exc o).0 ≡ 0)
  after_exception-endings exc none h k =
      after_response-endings exc (upstream.process_response closed_request) k
  after_exception-endings exc (some e) h k = rw (h e refl) (refl, refl, refl)

  -- A request that is cancelled ends its span once, closed or given up with a line in the log, and
  -- whatever the closing does its caller sees the cancellation itself; the closing may raise any
  -- Exception.
  pub acall-cancelled :
      (exc : E)
      → upstream.process_request ≡ none
      → ((e : E) → upstream.process_exception exc ≡ some e → is_exception e ≡ true)
      → ((e : E) → upstream.process_response closed_request ≡ err e → is_exception e ≡ true)
      → (openings (acall is_exception status_of closed_request upstream (err exc)).0 ≡ 1)
        × (endings (acall is_exception status_of closed_request upstream (err exc)).0 ≡ 1)
        × ((acall is_exception status_of closed_request upstream (err exc)).1 ≡ err exc)
  unfolding acall
  acall-cancelled exc begun h k =
      let (ended, result, none_opened) =
        after_exception-endings exc (upstream.process_exception exc) h k in
      simp (begun) (ap suc none_opened, ended, result)
