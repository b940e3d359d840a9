-- ===== src/Http/Retry/Twins.antt =====
-- The async loop does what the sync loop does, closing by `aclose`.
use mathlib.Core.Option
use mathlib.Core.List.{map-append}
use netix_backend.Prelude.{
  ℕ, zero, suc, ◌≡◌, refl, List, ◌∷◌, map, Option, none, some, String, arith, inl, inr,
}
use netix_backend.Prelude.Int.{pos_part}
use netix_backend.Prelude.Floats.{Floats}
use netix_backend.Http.Retry.{
  Policy, Attempt, answered, failed, Event, sent, closed, aclosed, Ending, Round, stop, again,
  round, attempts_from, unless_refused, send_with_retries, asend_with_retries,
}
use netix_backend.Http.Retry.Loop.{Round-cases}

module _ {F : Type 0} where
  abbrev pub async_event : Event F → Event F
  async_event (closed n) = aclosed n
  async_event e = e

  abbrev pub async_trace : List (Event F) × Ending → List (Event F) × Ending
  async_trace (trace, ending) = (map async_event trace, ending)

  abbrev async_round : Round F → Round F
  async_round (stop events ending) = stop (map async_event events) ending
  async_round (again events delay) = again (map async_event events) delay

module _ (f : Floats) (p : Policy f.F) (method : String) (until : String → Option f.F)
    (draws : ℕ → f.F → f.F) (refuses : f.F → Option String) (send : ℕ → Attempt) where
  round-async :
      (n : ℕ) (a : Attempt)
      → round f p method until draws aclosed n a
        ≡ async_round (round f p method until draws closed n a)
  unfolding round
  round-async n (failed e) = ground arith
  round-async n (answered r) = ground arith

  attempts_from-async :
      (fuel n : ℕ)
      → attempts_from f p method until draws aclosed refuses send fuel n
        ≡ Option.map async_trace (attempts_from f p method until draws closed refuses send fuel n)
  unfolding attempts_from
  attempts_from-async zero n = refl
  attempts_from-async (suc fuel) n =
      elim (Round-cases (round f p method until draws closed n (send n))) [
        | inl (events, ending, e) ↦
            rw (round-async n (send n), attempts_from) (rw (e, attempts_from))
        | inr (events, delay, e) ↦
            rw (round-async n (send n), attempts_from)
              (rw (e, attempts_from)
                (rw (attempts_from-async fuel (suc n)) (
                  later (refuses delay) (sent n ∷ events) delay
                    (attempts_from f p method until draws closed refuses send fuel (suc n)))))
      ]
    where
      later :
          (refusal : Option String) (events : List (Event f.F)) (delay : f.F)
          (o : Option (List (Event f.F) × Ending))
          → unless_refused f p method until draws refusal
              (map async_event events)
              delay
              (Option.map async_trace o)
            ≡ Option.map async_trace (unless_refused f p method until draws refusal events delay o)
      later (some name) events delay o = refl
      later none events delay none = refl
      later none events delay (some (trace, ending)) = simp map-append

  -- Where their sleeps refuse the same delays, both loops give the same ending and the same trace,
  -- up to the way a response is closed.
  pub asend-eq-send :
      asend_with_retries f p method until draws refuses send
      ≡ Option.map async_trace (send_with_retries f p method until draws refuses send)
  unfolding asend_with_retries send_with_retries
  asend-eq-send = attempts_from-async (suc (pos_part p.retries)) 0
