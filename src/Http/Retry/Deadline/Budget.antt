-- ===== src/Http/Retry/Deadline/Budget.antt =====
-- What the deadline bounds: when an attempt starts, its timeouts, and the sleeps.
use netix_backend.Prelude.{
  ℕ, zero, suc, ◌+◌, ◌*◌, ◌≡◌, inl, inr, Bool, false, List, [], ◌∷◌, Option, none, some, String,
  Bool-cases,
}
use netix_backend.Prelude.Int.{ℤ, pos, leb_ℤ}
use netix_backend.Prelude.Floats.{Floats, IsOrdered, fmin}
use netix_backend.Http.Retry.{
  Response, Attempt, answered, failed, SendError, retryable_exc, should_retry_status,
  jittered_backoff,
}
use netix_backend.Http.Retry.Deadline.{
  Timeout, Event, requested, slept, Ending, rounds, cap, attempt_timeout, pause, outcome,
  attempts_within, request_within_deadline,
}

module _ (f : Floats) where
  -- The timeout is set, and the seconds left are not strictly below it.
  abbrev pub IsCapped : f.F → Option f.F → Type 0
  IsCapped left none = ⊥
  IsCapped left (some t) = f.less left t ≡ false

  abbrev pub AllCapped : f.F → Timeout f.F → Type 0
  AllCapped left t =
      IsCapped left t.connect × IsCapped left t.read × IsCapped left t.write × IsCapped left t.pool

  module _ (end : f.F) (clock : ℕ → f.F) where
    -- Each event begins with seconds left before `end`, and cannot by itself outlast them.
    abbrev pub InBudget : List (Event f.F) → Type 0
    InBudget [] = Unit
    InBudget (requested n t ∷ es) =
        (f.less_eq (f.minus end (clock (2 * n + 1))) (f.tenths 0) ≡ false)
        × AllCapped (f.minus end (clock (2 * n + 1))) t
        × InBudget es
    InBudget (slept n d ∷ es) =
        (f.less_eq (f.minus end (clock (2 * n + 2))) (f.tenths 0) ≡ false)
        × (f.less (f.minus end (clock (2 * n + 2))) d ≡ false)
        × InBudget es

  module _ (ordered : IsOrdered f) where
    fmin_capped : (value left : f.F) → f.less left (fmin f value left) ≡ false
    fmin_capped value left = elim (Bool-cases (f.less left value)) [
      | inl below ↦ rw below (ordered.less_irrefl left)
      | inr above ↦ rw above above
    ]

    cap-IsCapped : (value : Option f.F) (left : f.F) → IsCapped left (some (cap f value left))
    unfolding cap
    cap-IsCapped none left = ordered.less_irrefl left
    cap-IsCapped (some value) left = fmin_capped value left

    attempt_timeout-AllCapped :
        (t : Timeout f.F) (left : f.F) → AllCapped left (attempt_timeout f t left)
    unfolding attempt_timeout
    attempt_timeout-AllCapped t left = (
      cap-IsCapped t.connect left,
      cap-IsCapped t.read left,
      cap-IsCapped t.write left,
      cap-IsCapped t.pool left,
    )

    module _ (method : String) (timeout : Timeout f.F) (end factor : f.F) (retries : ℤ)
        (opt_in : Bool) (clock : ℕ → f.F) (draws : ℕ → f.F → f.F) (send : ℕ → Attempt) where
      pause-InBudget :
          (n : ℕ) (r : Option Response) (e : Option SendError) (rest : List (Event f.F) × Ending)
          → InBudget end clock rest.0
          → InBudget end clock
              (pause f method timeout end factor retries opt_in clock draws send n r e rest).0
      unfolding pause
      pause-InBudget n r e rest h = elim (Bool-cases (leb_ℤ retries (pos n))) [
        | inl last ↦ rw last tt
        | inr more ↦
            rw more (elim (Bool-cases (f.less_eq (f.minus end (clock (2 * n + 2))) (f.tenths 0))) [
              | inl over ↦ rw over tt
              | inr room ↦ rw room (room, fmin_capped (jittered_backoff f factor n (draws n)) _, h)
            ])
      ]

      outcome-InBudget :
          (n : ℕ) (r : Option Response) (e : Option SendError) (a : Attempt)
          (rest : Option Response → Option SendError → List (Event f.F) × Ending)
          → ((r : Option Response) (e : Option SendError) → InBudget end clock (rest r e).0)
          → InBudget end clock
              (outcome f method timeout end factor retries opt_in clock draws send n r e rest a).0
      unfolding outcome
      outcome-InBudget n r e (failed x) rest h = elim (Bool-cases (retryable_exc x)) [
        | inl more ↦ rw more (pause-InBudget n r (some x) (rest r (some x)) (h r (some x)))
        | inr last ↦ rw last tt
      ]
      outcome-InBudget n r e (answered x) rest h =
          elim (Bool-cases (should_retry_status method x.status_code opt_in)) [
            | inl more ↦ rw more (pause-InBudget n (some x) e (rest (some x) e) (h (some x) e))
            | inr last ↦ rw last tt
          ]

      attempts_within-InBudget :
          (left n : ℕ) (r : Option Response) (e : Option SendError)
          → InBudget end clock
              (attempts_within f method timeout end factor retries opt_in clock draws send left n r
                e).0
      unfolding attempts_within
      attempts_within-InBudget zero n r e = tt
      attempts_within-InBudget (suc left) n r e =
          elim (Bool-cases (f.less_eq (f.minus end (clock (2 * n + 1))) (f.tenths 0))) [
            | inl over ↦ rw over tt
            | inr room ↦ rw room (
              room,
              attempt_timeout-AllCapped timeout _,
              outcome-InBudget n r e (send n) _ (attempts_within-InBudget left (suc n)),
            )
          ]

    -- No attempt and no sleep begins once the deadline has passed. Each of an attempt's four
    -- timeouts is set, also where the caller waits without limit, and no timeout and no sleep is
    -- longer than the seconds that were left when it was chosen.
    pub request_within_deadline-InBudget :
        (method : String) (timeout : Timeout f.F) (deadline : f.F) (retries : ℤ) (factor : f.F)
        (opt_in : Bool) (clock : ℕ → f.F) (draws : ℕ → f.F → f.F) (send : ℕ → Attempt)
        → InBudget
            (f.plus (clock 0) deadline)
            clock
            (request_within_deadline f method timeout deadline retries factor opt_in clock draws
              send).0
    unfolding request_within_deadline
    request_within_deadline-InBudget method timeout deadline retries factor opt_in clock draws
          send =
        attempts_within-InBudget method timeout (f.plus (clock 0) deadline) factor retries opt_in
          clock draws send (rounds retries) 0 none none
