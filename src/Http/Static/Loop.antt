-- ===== src/Http/Static/Loop.antt =====
-- How the loop of uploads and downloads ends.
use native.Mathlib.Nat.{zero-add}
use netix_backend.Prelude.{
  Bool, true, false, ◌==◌, ◌||◌, ℕ, zero, suc, ◌+◌, ◌<◌, ◌≡◌, ◌⊎◌, inl, inr, refl, ap, sym, ◌∙◌,
  ◌-◌, List, [], ◌∷◌, ◌++◌, Option, none, some, Result, ok, err, arith, ltb, ltb→lt, min,
  Bool-cases,
}
use netix_backend.Prelude.Floats.{Floats}
use netix_backend.Env.{or_default}
use netix_backend.Http.Static.{
  Response, Attempt, What, StaticServiceError, made_no_attempts, Failure, static_service_error,
  Round, stop, again, Event, requested, slept, attempt_round, loop, pause,
}

abbrev pub requests : {F : Type 0} → List (Event F) → ℕ
requests [] = 0
requests (requested n ∷ es) = suc (requests es)
requests (_ ∷ es) = requests es

-- Attempt `n` was made.
abbrev pub was_requested : {F : Type 0} → List (Event F) → ℕ → Bool
was_requested [] n = false
was_requested (requested m ∷ es) n = (m == n) || was_requested es n
was_requested (_ ∷ es) n = was_requested es n

abbrev pub sleeps : {F : Type 0} → List (Event F) → ℕ
sleeps [] = 0
sleeps (slept d ∷ es) = suc (sleeps es)
sleeps (_ ∷ es) = sleeps es

abbrev pub error_or : {R : Type 0} → Option StaticServiceError → Round R → Option StaticServiceError
error_or old (again e) = some e
error_or old (stop result) = old

-- `last_error` behind `n` rounds.
abbrev pub last_error :
    {R : Type 0} → (ℕ → Round R) → ℕ → ℕ → Option StaticServiceError → Option StaticServiceError
last_error step zero from old = old
last_error step (suc n) from old = last_error step n (suc from) (error_or old (step from))

Round-cases :
    {R : Type 0} (r : Round R)
    → ((result : Result Failure R) × (r ≡ stop result)) ⊎ ((e : StaticServiceError) × (r ≡ again e))
Round-cases (stop result) = inl (result, refl)
Round-cases (again e) = inr (e, refl)

shift : (r from : ℕ) → suc r + from ≡ r + suc from
shift r from = omega arith

module _ (f : Floats) {R : Type 0} (what : What) (round : ℕ → ℕ → Response → Round R)
    (backoff : f.F) (draws : ℕ → f.F → f.F) (send : ℕ → Attempt) (attempts : ℕ) where
  -- What round `n` does.
  abbrev pub step : ℕ → Round R
  step n = attempt_round what (round attempts n) (send n)

  abbrev run : ℕ → ℕ → Option StaticServiceError → List (Event f.F) × Result Failure R
  run left from old = loop f what round backoff draws send left attempts from old

  -- `retried` rounds go on; then the rounds are used up, or one more decides.
  pub record IsRun (left from : ℕ) (old : Option StaticServiceError) (trace : List (Event f.F))
      (result : Result Failure R) : Type 0 where
    pub retried : ℕ
    pub passed : (j : ℕ) → j < retried → (e : StaticServiceError) × (step (j + from) ≡ again e)
    pub ends :
        ((retried ≡ left)
          × (requests trace ≡ retried)
          × (result
              ≡ err (
                  static_service_error
                    (or_default (made_no_attempts what) (last_error step left from old)))))
        ⊎ ((retried < left)
            × (requests trace ≡ suc retried)
            × (step (retried + from) ≡ stop result))
    -- one sleep between two requests, none behind the last
    pub slept_between : sleeps trace ≡ requests trace - 1

  passed_on :
      (from r : ℕ) (e : StaticServiceError)
      → step from ≡ again e
      → ((j : ℕ) → j < r → (e : StaticServiceError) × (step (j + suc from) ≡ again e))
      → (j : ℕ) → j < suc r
      → (e : StaticServiceError) × (step (j + from) ≡ again e)
  passed_on from r e more later zero h = (e, rw zero-add more)
  passed_on from r e more later (suc j) h = rw shift (later j (omega arith))

  abbrev Behaves : ℕ → ℕ → Option StaticServiceError → List (Event f.F) × Result Failure R → Type 0
  Behaves left from old (trace, result) = IsRun left from old trace result

  -- A sleep stands before the next request, where there is one.
  pause_counts :
      (left from : ℕ) (es : List (Event f.F))
      → suc left + from ≡ attempts
      → (requests (pause f what round backoff draws send attempts from ++ es) ≡ requests es)
        × (sleeps (pause f what round backoff draws send attempts from ++ es)
            ≡ min left 1 + sleeps es)
  pause_counts left from es total = elim (Bool-cases (ltb (from + 1) attempts)) [
    | inl more ↦ rw more (refl, omega (arith, ltb→lt (from + 1) attempts more))
    | inr last ↦ rw last (refl, ground arith)
  ]

  goes_on :
      (left from : ℕ) (old : Option StaticServiceError) (e : StaticServiceError)
      (rest : List (Event f.F) × Result Failure R)
      → suc left + from ≡ attempts
      → step from ≡ again e
      → Behaves left (suc from) (some e) rest
      → IsRun
          (suc left)
          from
          old
          (requested from ∷ (pause f what round backoff draws send attempts from ++ rest.0))
          rest.1
  goes_on left from old e (trace, result) total more r =
      let (same, slept_more) = pause_counts left from trace total in
      record {
        retried = suc r.retried;
        passed = passed_on from r.retried e more r.passed;
        ends = elim r.ends [
          | inl (all, count, is) ↦ inl (ap suc all, omega (arith, same, count), rw more is)
          | inr (lt, count, is) ↦ inr (omega arith, omega (arith, same, count), rw shift is)
        ];
        slept_between = elim r.ends [
          | inl (all, count, is) ↦ omega (arith, same, slept_more, r.slept_between)
          | inr (lt, count, is) ↦ omega (arith, same, slept_more, r.slept_between)
        ];
      }

  loop-Behaves :
      (left from : ℕ) (old : Option StaticServiceError)
      → left + from ≡ attempts
      → Behaves left from old (run left from old)
  unfolding loop
  loop-Behaves zero from old total = record {
    retried = 0;
    passed = λ j lt. absurd (omega arith);
    ends = inl (refl, refl, refl);
    slept_between = refl;
  }
  loop-Behaves (suc left) from old total = elim (Round-cases (step from)) [
    | inl (result, is) ↦
        rw (is, loop)
          (record {
            retried = 0;
            passed = λ j lt. absurd (omega arith);
            ends = inr (omega arith, refl, rw zero-add is);
            slept_between = refl;
          })
    | inr (e, more) ↦
        rw (more, loop)
          (goes_on left from old e _ total more
            (loop-Behaves left (suc from) (some e) (omega arith)))
  ]

  -- The loop makes at most as many requests as it has attempts, one sleep between any two of them.
  -- Either one request decides, the first that does not call for another, and the loop ends with
  -- its result; or all attempts are used up and the loop raises the last one's error, or says that
  -- it made none.
  pub loop-IsRun :
      (trace : List (Event f.F)) × (result : Result Failure R) × (loop f what round backoff draws
          send attempts attempts 0 none
        ≡ (trace, result))
      × IsRun attempts 0 none trace result
  loop-IsRun = (_, _, refl, loop-Behaves attempts 0 none (omega arith))

  requested_later :
      (from n : ℕ) (es : List (Event f.F))
      → was_requested es n ≡ true
      → was_requested
          (requested from ∷ (pause f what round backoff draws send attempts from ++ es))
          n
        ≡ true
  requested_later from n es h = elim (Bool-cases (ltb (from + 1) attempts)) [
    | inl more ↦ rw more (ground (arith, h))
    | inr last ↦ rw last (ground (arith, h))
  ]

  loop-made :
      (left from : ℕ) (old : Option StaticServiceError) (value : R)
      → (run left from old).1 ≡ ok value
      → (n : ℕ) × (was_requested (run left from old).0 n ≡ true) × (step n ≡ stop (ok value))
  unfolding loop
  loop-made zero from old value e = absurd (cc)
  loop-made (suc left) from old value e = elim (Round-cases (step from)) [
    | inl (result, is) ↦
        let same : result ≡ ok value = rw (is, loop) at e in
        (from, rw (is, loop) (ground arith), is ∙ ap stop same)
    | inr (error, more) ↦
        let later : (run left (suc from) (some error)).1 ≡ ok value = rw (more, loop) at e in
        let (n, made, is) = loop-made left (suc from) (some error) value later in
        (n, rw (more, loop) (requested_later from n _ made), is)
  ]

  -- What the loop returns is the result of a round that it made.
  pub loop-ok :
      (trace : List (Event f.F)) (value : R)
      → loop f what round backoff draws send attempts attempts 0 none ≡ (trace, ok value)
      → (n : ℕ) × (was_requested trace n ≡ true) × (step n ≡ stop (ok value))
  loop-ok trace value e =
      let (n, made, is) = loop-made attempts 0 none value (ap (λ p. p.1) e) in
      (n, ap (λ p. was_requested p.0 n) (sym e) ∙ made, is)
