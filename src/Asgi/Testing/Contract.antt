-- ===== src/Asgi/Testing/Contract.antt =====
-- netix_backend/asgi/testing.py: what a slow app behind the ceiling answers, as the contract suite
-- has it.
use netix_backend.Prelude.{
  ℕ, ◌==◌, ◌||◌, ◌≡◌, refl, inl, inr, Bool, true, false, not, ◌&&◌, List, Option, none, some,
  String, if◌then◌else◌, ltb, contains, length, Bool-cases,
}
use netix_backend.Prelude.Int.{ℤ, pos, leb_ℤ}
use netix_backend.Prelude.Dict.{Dict}
use netix_backend.Asgi.Timeout.{
  Message, Middleware, Scope, is_capped, admit, run, step, channel_send, time_out, abandon,
  fresh_call, under_clock,
}
use netix_backend.Asgi.Testing.{
  Reply, slow_app, in_wait, past_wait, in_time, served, first_start, reply_of, request_scope, drive,
}

abbrev pub status_of : Option (ℕ × Dict String) → Option ℕ
status_of none = none
status_of (some (status, headers)) = some status

-- The status of a reply, and whether the app had ended by then.
abbrev pub outcome_of : Option Reply → Option (ℕ × Bool)
outcome_of none = none
outcome_of (some reply) = some (reply.status, reply.finished)

abbrev pub is_full : Middleware → String → List ℕ → Bool
is_full m method tasks =
    not (contains m.never_shed method) && leb_ℤ m.max_abandoned (pos (length tasks))

-- The table of the suite: a method without a ceiling and an app in time get 200, a full worker
-- sheds, and an app past the ceiling is left running behind a 504.
abbrev pub expected : Middleware → ℕ → ℕ → String → List ℕ → ℕ × Bool
expected m timeout delay method tasks =
    if is_capped m (some method)
    then (if is_full m method tasks
        then (503, false)
        else if delay == 0 || ltb delay timeout
        then (200, true)
        else (504, false))
    else (200, true)

by_start :
    (sent : List Message) (finished : Bool) (start : Option (ℕ × Dict String)) (status : ℕ)
    → status_of start ≡ some status
    → outcome_of (reply_of sent finished start) ≡ some (status, finished)
by_start sent finished none status h = absurd (cc)
by_start sent finished (some (answered, headers)) status h = cc

module _ (m : Middleware)
    (renders : (status : ℕ) (message : String) (scope : Scope) (retry_after : Option ℤ)
      → status_of (first_start (m.error_body status message scope retry_after)) ≡ some status) where
  -- Inside the ceiling, and past it.
  served-slow_app :
      (timeout delay : ℕ) (scope : Scope) (task : ℕ) (tasks : List ℕ) (finished : Bool)
      → in_time timeout delay ≡ finished
      → outcome_of (
          let (sent, ended) =
            served m scope timeout (slow_app delay) (under_clock (fresh_call task tasks)) in
          reply_of sent ended (first_start sent))
        ≡ some (if finished then (200, true) else (504, false))
  unfolding served slow_app in_wait past_wait run step channel_send time_out abandon
  served-slow_app timeout delay scope task tasks true h = rw h refl
  served-slow_app timeout delay scope task tasks false h = rw h (
      let late = m.error_body 504 m.timeout_message scope none in
      by_start late false (first_start late) 504 (renders 504 m.timeout_message scope none))

  -- One request through the ceiling, over an app that answers 200 after a delay, gets the reply of
  -- the table, given that the renderer's messages begin a response with the status it is given:
  -- 200 with the app ended where the method has no ceiling, 503 where the worker is full and the
  -- method may be shed, 504 with the app still running where the delay is positive and reaches the ceiling, and
  -- otherwise 200 with the app ended.
  pub drive-slow_app :
      (timeout delay : ℕ) (method : String) (headers : Dict String) (task : ℕ) (tasks : List ℕ)
      → outcome_of (drive m timeout (slow_app delay) method headers task tasks)
        ≡ some (expected m timeout delay method tasks)
  unfolding drive admit
  drive-slow_app timeout delay method headers task tasks =
      elim (Bool-cases (is_capped m (some method))) [
        | inr free ↦ rw free (unfold served slow_app in refl)
        | inl capped ↦ elim (Bool-cases (is_full m method tasks)) [
          | inl full ↦
              rw (capped, full)
                (unfold served in
                  let scope = request_scope method headers in
                  let busy = m.error_body 503 m.overloaded_message scope m.retry_after in
                  by_start busy false (first_start busy) 503
                    (renders 503 m.overloaded_message scope m.retry_after))
          | inr room ↦
              rw (capped, room)
                (served-slow_app timeout delay (request_scope method headers) task tasks
                  (in_time timeout delay) refl)
        ]
      ]
