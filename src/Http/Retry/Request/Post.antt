-- ===== src/Http/Retry/Request/Post.antt =====
-- An upload is not repeated once it has been answered.
use netix_backend.Prelude.{
  ℕ, suc, ◌+◌, ◌≤◌, ◌<◌, ◌≡◌, inl, inr, refl, Bool, true, false, Option, none, some, String, ok,
  arith, Bool-cases, ltb, ltb→lt, Result-cases, ok_inj,
}
use netix_backend.Prelude.Int.{ℤ}
use netix_backend.Prelude.Floats.{Floats}
use netix_backend.Env.{Environ}
use netix_backend.Text.{upper, translate}
use netix_backend.Http.Retry
use netix_backend.Http.Retry.{
  Policy, Bound, Attempt, answered, failed, given, default_retries, default_backoff, init_policy,
  send_with_retries, should_retry_status, is_idempotent_method, is_retryable_status, attempts_from,
}
use netix_backend.Http.Retry.Loop
use netix_backend.Http.Retry.Loop.{send_with_retries-IsRun}
use netix_backend.Http.Retry.Deadline.{request_within_deadline}
use netix_backend.Http.Retry.Deadline.Outcome
use netix_backend.Http.Retry.Deadline.Outcome.{request_within_deadline-IsRun}
use netix_backend.Http.Retry.Request.{
  Chosen, Call, within_deadline, by_policy, inner, choose, Options, handle_request, by_deadline,
  request_with_retry, post_with_retry,
}

-- How many requests a call has made.
abbrev pub attempts_of : {F T : Type 0} → Call F T → ℕ
attempts_of (within_deadline t (trace, ending)) = Outcome.calls trace
attempts_of (by_policy t p none) = 0
attempts_of (by_policy t p (some (trace, ending))) = Loop.calls trace

inner-choose : {T : Type 0} (t : Option T) → inner (choose t) ≡ t
inner-choose none = refl
inner-choose (some t) = refl

no_post_status : (status : ℕ) → should_retry_status "POST" status false ≡ false
unfolding should_retry_status is_idempotent_method upper translate
no_post_status status = ground arith

-- Where every attempt before number `retried` is to be repeated, and attempt `n` is not.
retried_bound :
    (again : Attempt → Bool) (a : ℕ → Attempt) (retried n : ℕ)
    → ((j : ℕ) → j < retried → again (a (j + 0)) ≡ true)
    → again (a n) ≡ false
    → retried ≤ n
retried_bound again a retried n passed h = elim (Bool-cases (ltb n retried)) [
  | inl lt ↦ absurd (clash (passed n (ltb→lt n retried lt)))
  | inr ge ↦ ground arith
]
  where
    clash : again (a (n + 0)) ≡ true → ⊥
    clash p = let e : n + 0 ≡ n = omega arith in ground (arith, rw e at p, h)

module _ (f : Floats) {T : Type 0} (env : Environ) (bound : Bound f.F) (until : String → Option f.F)
    (draws : ℕ → f.F → f.F) (refuses : f.F → Option String) (clock : ℕ → f.F)
    (send : Option T → ℕ → Attempt) where
  -- A POST that may be repeated only on exceptions, in a loop of either kind.
  within_deadline-answered :
      (o : Options f.F T) (retries : ℤ) (factor deadline : f.F) (n : ℕ) (r : Retry.Response)
      → o.retry_non_idempotent ≡ false
      → send o.transport n ≡ answered r
      → Outcome.calls
          (request_within_deadline f "POST" o.timeout deadline retries factor o.retry_non_idempotent
            clock draws
            (send o.transport)).0
        ≤ suc n
  within_deadline-answered o retries factor deadline n r opt hit =
      let (trace, ending, same, run) =
        request_within_deadline-IsRun f "POST" o.timeout deadline retries factor
          o.retry_non_idempotent clock draws (send o.transport) in
      let bound_retried : run.retried ≤ n =
        retried_bound (Outcome.retryable "POST" o.retry_non_idempotent) (send o.transport)
          run.retried n run.passed (rw hit (rw opt (no_post_status r.status_code))) in
      rw same (elim run.ends [
        | inl (count, e) ↦ omega (arith, bound_retried)
        | inr (count, _, _, e) ↦ omega (arith, bound_retried)
      ])

  not_again :
      (p : Policy f.F) (r : Retry.Response) {a : Attempt}
      → p.retry_non_idempotent ≡ false
      → a ≡ answered r
      → Loop.retryable p "POST" a ≡ false
  unfolding Loop.retryable
  not_again p r opt hit = rw hit (rw opt (no_post_status r.status_code))

  by_policy-answered :
      (t : Chosen T) (p : Policy f.F) (n : ℕ) (r : Retry.Response)
      → p.retry_non_idempotent ≡ false
      → send (inner t) n ≡ answered r
      → attempts_of
          (by_policy t p (handle_request f env bound until draws refuses clock send t p "POST"))
        ≤ suc n
  unfolding handle_request
  by_policy-answered t p n r opt hit =
      let (trace, ending, same, run) =
        send_with_retries-IsRun f p "POST" until draws refuses (send (inner t)) in
      let bound_retried : run.retried ≤ n =
        retried_bound (Loop.retryable p "POST") (send (inner t)) run.retried n run.passed
          (not_again p r opt hit) in
      rw same (omega (arith, bound_retried, run.called))

  by_deadline-answered :
      (o : Options f.F T) (attempts : ℤ) (factor : f.F) (deadline : Option f.F) (call : Call f.F T)
      (n : ℕ) (r : Retry.Response)
      → o.retry_non_idempotent ≡ false
      → by_deadline f env bound until draws refuses clock send "POST" o attempts factor deadline
        ≡ ok call
      → send o.transport n ≡ answered r
      → attempts_of call ≤ suc n
  unfolding init_policy
  by_deadline-answered o attempts factor (some deadline) call n r opt e hit =
      rw (← ok_inj e) (within_deadline-answered o attempts factor deadline n r opt hit)
  by_deadline-answered o attempts factor none call n r opt e hit =
      rw (← ok_inj e) (by_policy-answered (choose o.transport) _ n r opt (rw inner-choose hit))

  -- Unless the caller opts in, a POST makes no further request once one has been answered, whatever
  -- the status, with and without a deadline, and through an injected transport too.
  pub post_with_retry-answered :
      (o : Options f.F T) (call : Call f.F T) (n : ℕ) (r : Retry.Response)
      → o.retry_non_idempotent ≡ false
      → post_with_retry f env bound until draws refuses clock send o ≡ ok call
      → send o.transport n ≡ answered r
      → attempts_of call ≤ suc n
  unfolding post_with_retry request_with_retry
  post_with_retry-answered o call n r opt e hit =
      elim (Result-cases (given o.retries (default_retries f env bound))) [
        | inr (x, bad) ↦ absurd (cc)
        | inl (attempts, e1) ↦
            elim (Result-cases (given o.backoff_factor (default_backoff f env bound))) [
              | inr (x, bad) ↦ absurd (cc)
              | inl (factor, e2) ↦
                  by_deadline-answered o attempts factor o.deadline call n r opt (rw (e1, e2) at e)
                    hit
            ]
      ]
