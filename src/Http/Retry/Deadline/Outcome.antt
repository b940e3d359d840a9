-- ===== src/Http/Retry/Deadline/Outcome.antt =====
-- How the loop under a deadline ends, and what the deadline bounds on the way.
use native.Mathlib.Nat.{zero-add}
use netix_backend.Prelude.{
  ℕ, zero, suc, ◌+◌, ◌≤◌, ◌<◌, ◌≡◌, ◌⊎◌, inl, inr, refl, Bool, true, false, List, [], ◌∷◌, ◌++◌,
  Option, none, some, String, arith, Bool-cases, ◌||◌,
}
use netix_backend.Prelude.Int.{ℤ, pos, leb_ℤ}
use netix_backend.Prelude.Floats.{Floats}
use netix_backend.Http.Retry.{
  Response, Attempt, answered, failed, SendError, retryable_exc, should_retry_status,
}
use netix_backend.Http.Retry.Deadline.{
  Timeout, Event, requested, slept, Ending, returned, raised, settle, rounds, remaining_before,
  budget_after, is_spent, add_events, pause, outcome, attempts_within, request_within_deadline,
}

abbrev pub retryable : String → Bool → Attempt → Bool
retryable method opt_in (failed e) = retryable_exc e
retryable method opt_in (answered r) = should_retry_status method r.status_code opt_in

abbrev pub ending_of : Attempt → Ending
ending_of (failed e) = raised e
ending_of (answered r) = returned r

abbrev pub response_or : Option Response → Attempt → Option Response
response_or old (answered r) = some r
response_or old (failed e) = old

abbrev pub error_or : Option SendError → Attempt → Option SendError
error_or old (failed e) = some e
error_or old (answered r) = old

-- The latest response, and the latest exception, of `n` attempts.
abbrev pub last_response : (ℕ → Attempt) → ℕ → ℕ → Option Response → Option Response
last_response send zero from old = old
last_response send (suc n) from old = last_response send n (suc from) (response_or old (send from))

abbrev pub last_error : (ℕ → Attempt) → ℕ → ℕ → Option SendError → Option SendError
last_error send zero from old = old
last_error send (suc n) from old = last_error send n (suc from) (error_or old (send from))

abbrev pub calls : {F : Type 0} → List (Event F) → ℕ
calls [] = 0
calls (requested n t ∷ es) = suc (calls es)
calls (slept n d ∷ es) = calls es

shift : (r from : ℕ) → suc r + from ≡ r + suc from
shift r from = omega arith

module _ (f : Floats) (method : String) (timeout : Timeout f.F) (end factor : f.F) (retries : ℤ)
    (opt_in : Bool) (clock : ℕ → f.F) (draws : ℕ → f.F → f.F) (send : ℕ → Attempt) where
  abbrev run : ℕ → ℕ → Option Response → Option SendError → List (Event f.F) × Ending
  run = attempts_within f method timeout end factor retries opt_in clock draws send

  -- A run of the loop from attempt `from` on, with `left` rounds: `retried` attempts call for
  -- another one; the loop stops behind them, or with one more attempt that decides.
  pub record IsRun (left from : ℕ) (old : Option Response) (old_error : Option SendError)
      (trace : List (Event f.F)) (ending : Ending) : Type 0 where
    pub retried : ℕ
    pub within : retried ≤ left
    pub passed : (j : ℕ) → j < retried → retryable method opt_in (send (j + from)) ≡ true
    pub ends :
        ((calls trace ≡ retried)
          × (ending
              ≡ settle
                  (last_response send retried from old)
                  (last_error send retried from old_error)))
        ⊎ ((calls trace ≡ suc retried)
            × (retried < left)
            × (retryable method opt_in (send (retried + from)) ≡ false)
            × (ending ≡ ending_of (send (retried + from))))

  abbrev Behaves : ℕ → ℕ → Option Response → Option SendError → List (Event f.F) × Ending → Type 0
  Behaves left from old old_error (trace, ending) = IsRun left from old old_error trace ending

  passed_on :
      (from r : ℕ)
      → retryable method opt_in (send from) ≡ true
      → ((j : ℕ) → j < r → retryable method opt_in (send (j + suc from)) ≡ true)
      → (j : ℕ) → j < suc r
      → retryable method opt_in (send (j + from)) ≡ true
  passed_on from r more later zero h = rw zero-add more
  passed_on from r more later (suc j) h = rw shift (later j (omega arith))

  stops :
      (left from : ℕ) (old : Option Response) (old_error : Option SendError)
      → IsRun left from old old_error [] (settle old old_error)
  stops left from old old_error = record {
    retried = 0;
    within = omega arith;
    passed = λ j lt. absurd (omega arith);
    ends = inl (refl, refl);
  }

  decides :
      (left from : ℕ) (old : Option Response) (old_error : Option SendError) (t : Timeout f.F)
      → retryable method opt_in (send from) ≡ false
      → IsRun (suc left) from old old_error (requested from t ∷ []) (ending_of (send from))
  decides left from old old_error t h = record {
    retried = 0;
    within = omega arith;
    passed = λ j lt. absurd (omega arith);
    ends = inr (refl, omega arith, rw zero-add h, rw zero-add refl);
  }

  -- A retryable attempt, then a run over what it leaves in the two variables.
  goes_on :
      (left from : ℕ) (old : Option Response) (old_error : Option SendError) (t : Timeout f.F)
      (pre : List (Event f.F)) (trace : List (Event f.F)) (ending : Ending)
      → retryable method opt_in (send from) ≡ true
      → ((es : List (Event f.F)) → calls (pre ++ es) ≡ calls es)
      → IsRun left
          (suc from)
          (response_or old (send from))
          (error_or old_error (send from))
          trace
          ending
      → IsRun (suc left) from old old_error (requested from t ∷ (pre ++ trace)) ending
  goes_on left from old old_error t pre trace ending more quiet r = record {
    retried = suc r.retried;
    within = omega (arith, r.within);
    passed = passed_on from r.retried more r.passed;
    ends = elim r.ends [
      | inl (count, e) ↦ inl (omega (arith, quiet trace), e)
      | inr (count, lt, decisive, e) ↦
          inr (omega (arith, quiet trace), omega arith, rw shift decisive, rw shift e)
    ];
  }

  paused :
      (left from : ℕ) (old : Option Response) (old_error : Option SendError) (t : Timeout f.F)
      (rest : List (Event f.F) × Ending)
      → retryable method opt_in (send from) ≡ true
      → Behaves left (suc from) (response_or old (send from)) (error_or old_error (send from)) rest
      → Behaves (suc left) from old old_error (
          add_events f method timeout end factor retries opt_in clock draws send
            (requested from t ∷ [])
            (pause f method timeout end factor retries opt_in clock draws send from
              (response_or old (send from))
              (error_or old_error (send from))
              rest))
  unfolding pause
  paused left from old old_error t (trace, ending) more r =
      elim (Bool-cases (
        leb_ℤ retries (pos from)
        || is_spent f method timeout end factor retries opt_in clock draws send
            (budget_after f method timeout end factor retries opt_in clock draws send from))) [
              | inl over ↦ rw over (
                  goes_on left from old old_error t [] [] _ more (λ es. refl)
                    (stops left (suc from) (response_or old (send from))
                      (error_or old_error (send from))))
              | inr room ↦ rw room (
                  goes_on left from old old_error t (slept from _ ∷ []) trace ending more
                    (λ es. refl) r)
            ]

  -- `retryable` by the attempt, whose two forms `outcome` tells apart.
  attempted :
      (left from : ℕ) (old : Option Response) (old_error : Option SendError) (t : Timeout f.F)
      (a : Attempt) (rest : Option Response → Option SendError → List (Event f.F) × Ending)
      → send from ≡ a
      → ((r : Option Response) (e : Option SendError) → Behaves left (suc from) r e (rest r e))
      → Behaves (suc left) from old old_error (
          add_events f method timeout end factor retries opt_in clock draws send
            (requested from t ∷ [])
            (outcome f method timeout end factor retries opt_in clock draws send from old old_error
              rest a))
  unfolding outcome
  attempted left from old old_error t (failed e) rest same later =
      elim (Bool-cases (retryable_exc e)) [
        | inl more ↦ rw more (
            rw same at (
              paused left from old old_error t (rest old (some e)) (rw same more)
                (rw same (later old (some e)))))
        | inr last ↦ rw last (rw same at (decides left from old old_error t (rw same last)))
      ]
  attempted left from old old_error t (answered r) rest same later =
      elim (Bool-cases (should_retry_status method r.status_code opt_in)) [
        | inl more ↦ rw more (
            rw same at (
              paused left from old old_error t (rest (some r) old_error) (rw same more)
                (rw same (later (some r) old_error))))
        | inr last ↦ rw last (rw same at (decides left from old old_error t (rw same last)))
      ]

  attempts_within-Behaves :
      (left from : ℕ) (old : Option Response) (old_error : Option SendError)
      → Behaves left from old old_error (run left from old old_error)
  unfolding attempts_within
  attempts_within-Behaves zero from old old_error = stops 0 from old old_error
  attempts_within-Behaves (suc left) from old old_error =
      elim (Bool-cases (
        is_spent f method timeout end factor retries opt_in clock draws send
          (remaining_before f method timeout end factor retries opt_in clock draws send from))) [
            | inl over ↦ rw over (stops (suc left) from old old_error)
            | inr room ↦ rw room (
                attempted left from old old_error _ (send from) (run left (suc from)) refl
                  (attempts_within-Behaves left (suc from)))
          ]

-- At most `retries + 1` attempts are made, none at all for negative retries. Every attempt but
-- the last is one to retry; either the last one is not, and its outcome is the call's, or the
-- call ends with the latest response, without one with the latest exception, without either
-- with the deadline's own error.
pub request_within_deadline-IsRun :
    (f : Floats) (method : String) (timeout : Timeout f.F) (deadline : f.F) (retries : ℤ)
    (factor : f.F) (opt_in : Bool) (clock : ℕ → f.F) (draws : ℕ → f.F → f.F) (send : ℕ → Attempt)
    → (trace : List (Event f.F)) × (ending : Ending) × (request_within_deadline f method timeout
          deadline retries factor opt_in clock draws send
        ≡ (trace, ending))
      × IsRun f method timeout
          (f.plus (clock 0) deadline)
          factor
          retries
          opt_in
          clock
          draws
          send
          (rounds retries)
          0
          none
          none
          trace
          ending
unfolding request_within_deadline
request_within_deadline-IsRun f method timeout deadline retries factor opt_in clock draws send = (
  _,
  _,
  refl,
  attempts_within-Behaves f method timeout (f.plus (clock 0) deadline) factor retries opt_in clock
      draws send (rounds retries) 0 none none,
)
