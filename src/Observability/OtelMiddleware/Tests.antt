-- ===== src/Observability/OtelMiddleware/Tests.antt =====
-- A request that ends, and one that is cancelled.
use netix_backend.Prelude.{
  ℕ, ◌≡◌, refl, Bool, true, [], ◌∷◌, none, some, String, str_eq, not, Result, ok, err,
}
use netix_backend.Observability.OtelMiddleware.{
  opened, exception_recorded, closed, Upstream, acall, use_async_middleware, upstream_middleware,
  async_middleware,
}
use netix_backend.Observability.OtelMiddleware.Spans.{openings, endings, acall-cancelled}

-- A response is its status, and an exception its name.
abbrev steady : Upstream ℕ String
steady = record {
  process_request = none;
  process_exception = λ e. none;
  process_response = λ r. ok r;
}

-- Closing the span fails.
abbrev broken : Upstream ℕ String
broken = record steady { process_response = λ r. err "RuntimeError" }

abbrev is_exception : String → Bool
is_exception e = not (str_eq e "CancelledError")

run : Unit {0}
unfolding acall use_async_middleware
run = tt

answered : acall is_exception (λ r. r) 499 steady (ok 200) ≡ (opened ∷ closed 200 ∷ [], ok 200)
unfolding run
answered = refl

hung_up :
    acall is_exception (λ r. r) 499 steady (err "CancelledError")
    ≡ (opened ∷ exception_recorded "CancelledError" ∷ closed 499 ∷ [], err "CancelledError")
unfolding run
hung_up = refl

swapped_in :
    use_async_middleware (some ("a" ∷ upstream_middleware ∷ []))
    ≡ some ("a" ∷ async_middleware ∷ [])
unfolding run
swapped_in = refl

acall-cancelled_example :
    (openings (acall is_exception (λ r. r) 499 broken (err "CancelledError")).0 ≡ 1)
    × (endings (acall is_exception (λ r. r) 499 broken (err "CancelledError")).0 ≡ 1)
    × ((acall is_exception (λ r. r) 499 broken (err "CancelledError")).1 ≡ err "CancelledError")
acall-cancelled_example =
    acall-cancelled is_exception (λ r. r) 499 broken "CancelledError" refl (λ e h. absurd (cc))
      closing
  where
    closing : (e : String) → broken.process_response 499 ≡ err e → is_exception e ≡ true
    closing e h = subst_name (err_inj h)
      where
        err_inj : {a b : String} → ◌≡◌ {A = Result String ℕ} (err a) (err b) → a ≡ b
        err_inj same = cc

        subst_name : "RuntimeError" ≡ e → is_exception e ≡ true
        subst_name same = rw (← same) refl
