-- ===== src/Http/Retry/Loop.antt =====
-- netix_backend/http/retry.py: what a run of the retry loop is, which attempt ends it, what was slept
-- and closed on the way.
pub mod Trace
use mathlib.Core.List.{append_assoc, append-nil}
use native.Mathlib.Nat.{zero-add}
use netix_backend.Prelude.{
  ℕ, zero, suc, ◌+◌, ◌≤◌, ◌<◌, max, ◌≡◌, ◌⊎◌, inl, inr, refl, ap, ◌∙◌, Bool, true, false, List, [],
  ◌∷◌, ◌++◌, Option, none, some, String, leb, arith, sym, Option-cases,
}
use netix_backend.Prelude.Int.{ℤ, pos, negsuc, pos_part, leb_ℤ}
use netix_backend.Prelude.Floats.{Floats}
use netix_backend.Http.Retry.{
  Policy, Attempt, answered, failed, Event, sent, closed, aclosed, slept, Ending, returned, raised,
  Round, stop, again, retryable_exc, should_retry_status, should_retry, round, attempts_from,
  send_with_retries, other_exception, jittered_backoff, status_delay,
}
unfoldable pub use netix_backend.Http.Retry.Loop.Trace.{retryable}
pub use netix_backend.Http.Retry.Loop.Trace.{
  ending_of, response_at, responses, calls, sleeps, closes, Round-cases,
}

reached_iff : (z : ℤ) (n : ℕ) → leb_ℤ z (pos n) ≡ leb (pos_part z) n
reached_iff (pos m) n = ground arith
reached_iff (negsuc m) n = ground arith

shift : (r from : ℕ) → suc r + from ≡ r + suc from
shift r from = omega arith

module _ (f : Floats) (p : Policy f.F) (method : String) (until : String → Option f.F)
    (draws : ℕ → f.F → f.F) (refuses : f.F → Option String) (send : ℕ → Attempt) where
  -- What is slept for behind an attempt that is to be repeated.
  abbrev pub delay_after : ℕ → Attempt → f.F
  delay_after n (failed e) = jittered_backoff f p.backoff_factor n (draws n)
  delay_after n (answered r) = status_delay f p method until draws r n

  -- The run that begins with attempt `from`. Its last attempt is not to be repeated, or is the last
  -- one allowed, and has the loop's outcome; or the sleep behind it raises.
  pub record IsRun (from : ℕ) (trace : List (Event f.F)) (ending : Ending) : Type 0 where
    pub retried : ℕ
    pub within : retried + from ≤ max from (pos_part p.retries)
    pub passed : (j : ℕ) → j < retried → retryable p method (send (j + from)) ≡ true
    pub rested : (j : ℕ) → j < retried → refuses (delay_after (j + from) (send (j + from))) ≡ none
    pub ends :
        (((retryable p method (send (retried + from)) ≡ false)
            ⊎ (pos_part p.retries ≤ retried + from))
          × (ending ≡ ending_of (send (retried + from)))
          × (closes trace ≡ responses send retried from))
        ⊎ ((name : String) × (retryable p method (send (retried + from)) ≡ true)
            × (retried + from < pos_part p.retries)
            × (refuses (delay_after (retried + from) (send (retried + from))) ≡ some name)
            × (ending ≡ raised (other_exception name))
            × (closes trace ≡ responses send (suc retried) from))
    pub called : calls trace ≡ suc retried
    pub slept_between : sleeps trace ≡ retried

  round_stop :
      (from : ℕ) (a : Attempt) {events : List (Event f.F)} {ending : Ending}
      → round f p method until draws closed from a ≡ stop events ending
      → ((retryable p method a ≡ false) ⊎ (pos_part p.retries ≤ from))
        × (ending ≡ ending_of a)
        × (calls events ≡ 0)
        × (sleeps events ≡ 0)
        × (closes events ≡ [])
  unfolding round retryable should_retry
  round_stop from (failed e) h = ground (arith, reached_iff p.retries from)
  round_stop from (answered r) h = ground (arith, reached_iff p.retries from)

  round_again :
      (from : ℕ) (a : Attempt) {events : List (Event f.F)} {delay : f.F}
      → round f p method until draws closed from a ≡ again events delay
      → (retryable p method a ≡ true)
        × (from < pos_part p.retries)
        × (delay ≡ delay_after from a)
        × ((es : List (Event f.F))
            → (calls (events ++ es) ≡ calls es)
              × (sleeps (events ++ es) ≡ sleeps es)
              × (closes (events ++ es) ≡ response_at from a ++ closes es))
  unfolding round retryable should_retry
  round_again from (failed e) h = (
    ground (arith, reached_iff p.retries from),
    ground (arith, reached_iff p.retries from),
    ground (arith, reached_iff p.retries from),
    λ es. ground (arith, reached_iff p.retries from),
  )
  round_again from (answered r) h = (
    ground (arith, reached_iff p.retries from),
    ground (arith, reached_iff p.retries from),
    ground (arith, reached_iff p.retries from),
    λ es. ground (arith, reached_iff p.retries from),
  )

  passed_on :
      (from r : ℕ)
      → retryable p method (send from) ≡ true
      → ((j : ℕ) → j < r → retryable p method (send (j + suc from)) ≡ true)
      → (j : ℕ) → j < suc r
      → retryable p method (send (j + from)) ≡ true
  passed_on from r more later zero h = rw zero-add more
  passed_on from r more later (suc j) h = rw shift (later j (omega arith))

  rested_on :
      (from r : ℕ)
      → refuses (delay_after from (send from)) ≡ none
      → ((j : ℕ) → j < r → refuses (delay_after (j + suc from) (send (j + suc from))) ≡ none)
      → (j : ℕ) → j < suc r
      → refuses (delay_after (j + from) (send (j + from))) ≡ none
  rested_on from r here later zero h = rw zero-add here
  rested_on from r here later (suc j) h = rw shift (later j (omega arith))

  abbrev Finds : ℕ → ℕ → Type 0
  Finds fuel from =
      (trace : List (Event f.F)) × (ending : Ending) × (attempts_from f p method until draws closed
          refuses send fuel from
        ≡ some (trace, ending))
      × IsRun from trace ending

  stopped :
      (fuel from : ℕ) (events : List (Event f.F)) (ending : Ending)
      → round f p method until draws closed from (send from) ≡ stop events ending
      → Finds (suc fuel) from
  unfolding attempts_from
  stopped fuel from events ending e =
      let (final, ends, called, slept_between, closed_all) = round_stop from (send from) e in
      (
        sent from ∷ events,
        ending,
        rw (e, attempts_from),
        record {
          retried = 0;
          within = omega arith;
          passed = λ j lt. absurd (omega arith);
          rested = λ j lt. absurd (omega arith);
          ends = inl (rw zero-add final, rw zero-add ends, closed_all);
          called = ap suc called;
          slept_between = slept_between;
        },
      )

  refused :
      (fuel from : ℕ) (events : List (Event f.F)) (delay : f.F) (name : String)
      → round f p method until draws closed from (send from) ≡ again events delay
      → refuses delay ≡ some name
      → Finds (suc fuel) from
  unfolding attempts_from
  refused fuel from events delay name e refusal =
      let (more, room, same, counts) = round_again from (send from) e in
      let (none_called, none_slept, closed_last) = counts [] in
      (
        sent from ∷ events,
        raised (other_exception name),
        rw (e, attempts_from) (rw refusal refl),
        record {
          retried = 0;
          within = omega arith;
          passed = λ j lt. absurd (omega arith);
          rested = λ j lt. absurd (omega arith);
          ends = inr (
            name,
            rw zero-add more,
            omega arith,
            rw zero-add (ap refuses (sym same) ∙ refusal),
            refl,
            ap closes (sym (append-nil events)) ∙ closed_last,
          );
          called = ap suc (ap calls (sym (append-nil events)) ∙ none_called);
          slept_between = ap sleeps (sym (append-nil events)) ∙ none_slept;
        },
      )

  slept_on :
      (fuel from : ℕ) (events : List (Event f.F)) (delay : f.F)
      → round f p method until draws closed from (send from) ≡ again events delay
      → refuses delay ≡ none
      → Finds fuel (suc from)
      → Finds (suc fuel) from
  unfolding attempts_from
  slept_on fuel from events delay e yes_sleep (trace, ending, found, r) =
      let (more, room, same, counts) = round_again from (send from) e in
      let (no_calls, one_sleep, closed_more) = counts (slept delay ∷ trace) in
      let close_on : (n : ℕ)
          → closes trace ≡ responses send n (suc from)
          → closes (events ++ slept delay ∷ trace) ≡ responses send (suc n) from =
        λ n h. closed_more ∙ ap (λ l. response_at from (send from) ++ l) h in
      (
        sent from ∷ (events ++ slept delay ∷ trace),
        ending,
        rw (e, attempts_from) (rw yes_sleep (rw found (rw append_assoc))),
        record {
          retried = suc r.retried;
          within = omega (arith, r.within);
          passed = passed_on from r.retried more r.passed;
          rested = rested_on from r.retried (ap refuses (sym same) ∙ yes_sleep) r.rested;
          ends = elim r.ends [
            | inl (final, is, closed_all) ↦
                inl (rw shift final, rw shift is, close_on r.retried closed_all)
            | inr (name, again_last, lt, refusal, is, closed_all) ↦ inr (
              name,
              rw shift again_last,
              omega arith,
              rw shift refusal,
              is,
              close_on (suc r.retried) closed_all,
            )
          ];
          called = omega (arith, no_calls, r.called);
          slept_between = omega (arith, one_sleep, r.slept_between);
        },
      )

  -- Enough fuel: one more than the attempts that the budget leaves.
  attempts_from-IsRun :
      (fuel from : ℕ) → pos_part p.retries < fuel + from → 0 < fuel → Finds fuel from
  attempts_from-IsRun zero from h pos_fuel = absurd (omega arith)
  attempts_from-IsRun (suc fuel) from h pos_fuel =
      elim (Round-cases (round f p method until draws closed from (send from))) [
        | inl (events, ending, e) ↦ stopped fuel from events ending e
        | inr (events, delay, e) ↦ elim (Option-cases (refuses delay)) [
          | inl no_error ↦
              let (more, room, same, counts) = round_again from (send from) e in
              slept_on fuel from events delay e no_error
                (attempts_from-IsRun fuel (suc from) (omega arith) (omega arith))
          | inr (name, error) ↦ refused fuel from events delay name e error
        ]
      ]

  -- The loop ends within its budget, whatever the sends give and the sleeps raise: every attempt
  -- before the last is to be repeated and is slept after. The last attempt, at most number
  -- `retries`, is not to be repeated or is the last one allowed, its outcome is the loop's, and of
  -- the responses exactly those of the earlier attempts were closed; or the sleep behind it raises,
  -- the loop raises the same, and its own response was closed too.
  pub send_with_retries-IsRun :
      (trace : List (Event f.F)) × (ending : Ending) × (send_with_retries f p method until draws
          refuses send
        ≡ some (trace, ending))
      × IsRun 0 trace ending
  unfolding send_with_retries
  send_with_retries-IsRun =
      attempts_from-IsRun (suc (pos_part p.retries)) 0 (omega arith) (omega arith)
