-- ===== src/Http/Retry/Loop/Trace.antt =====
-- What can be read off a run of the retry loop in netix_backend/http/retry.py: its attempts, its
-- sleeps and the responses that it closed.
use netix_backend.Prelude.{
  ℕ, zero, suc, ◌≡◌, ◌⊎◌, inl, inr, refl, Bool, List, [], ◌∷◌, ◌++◌, String,
}
use netix_backend.Http.Retry.{
  Policy, Attempt, answered, failed, Event, sent, closed, aclosed, slept, Ending, returned, raised,
  Round, stop, again, retryable_exc, should_retry_status,
}

-- The attempt calls for another one, if the budget allows it.
unfoldable pub retryable : {F : Type 0} → Policy F → String → Attempt → Bool
retryable p method (failed e) = retryable_exc e
retryable p method (answered r) = should_retry_status method r.status_code p.retry_non_idempotent

abbrev pub ending_of : Attempt → Ending
ending_of (failed e) = raised e
ending_of (answered r) = returned r

-- The responses of an attempt that is retried: one to close, or none.
abbrev pub response_at : ℕ → Attempt → List ℕ
response_at n (failed e) = []
response_at n (answered r) = n ∷ []

-- The responses among the attempts `from`, …, `from + n - 1`.
abbrev pub responses : (ℕ → Attempt) → ℕ → ℕ → List ℕ
responses send zero from = []
responses send (suc n) from = response_at from (send from) ++ responses send n (suc from)

module _ {F : Type 0} where
  -- The attempts, the sleeps, and the closed responses that a trace shows.
  abbrev pub calls : List (Event F) → ℕ
  calls [] = 0
  calls (sent n ∷ es) = suc (calls es)
  calls (_ ∷ es) = calls es

  abbrev pub sleeps : List (Event F) → ℕ
  sleeps [] = 0
  sleeps (slept d ∷ es) = suc (sleeps es)
  sleeps (_ ∷ es) = sleeps es

  abbrev pub closes : List (Event F) → List ℕ
  closes [] = []
  closes (closed n ∷ es) = n ∷ closes es
  closes (aclosed n ∷ es) = n ∷ closes es
  closes (_ ∷ es) = closes es

pub Round-cases :
    {F : Type 0} (r : Round F)
    → ((events : List (Event F)) × (ending : Ending) × (r ≡ stop events ending))
      ⊎ ((events : List (Event F)) × (delay : F) × (r ≡ again events delay))
Round-cases (stop events ending) = inl (events, ending, refl)
Round-cases (again events delay) = inr (events, delay, refl)
