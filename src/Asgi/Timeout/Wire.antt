-- ===== src/Asgi/Timeout/Wire.antt =====
-- What goes over the wire of a request that runs against the clock.
use netix_backend.Prelude.{
  ℕ, ◌+◌, ◌≤◌, ◌≡◌, ◌≢◌, ◌⊎◌, inl, inr, refl, ap, ◌∙◌, Bool, true, false, List, [], ◌∷◌, ◌++◌, none,
  arith, Bool-cases,
}
use netix_backend.Asgi.Timeout.{
  Message, Middleware, Scope, Call, Phase, watched, overrun, finished, left_running, finished_late,
  Event, app_sends, app_ends, time_is_up, channel_send, abandon, time_out, step, run, is_over,
  fresh_call,
}
use netix_backend.Asgi.Timeout.Soundness.{
  starts, app_messages, starts-append, IsSound, parts, step-IsSound, run-IsSound, fresh-IsSound,
}

module _ (m : Middleware) (scope : Scope)
    (renders : starts (m.error_body 504 m.timeout_message scope none) ≡ 1) where
  abbrev Muted : Call → Call → Type 0
  Muted c after = (after.wire ≡ c.wire) × (after.abandoned ≡ true)

  parts-Muted :
      (e : Event) (started : Bool) (wire : List Message) (phase : Phase) (task : ℕ) (tasks : List ℕ)
      → phase ≢ watched
      → Muted
          (parts started true wire phase task tasks)
          (step m scope e (parts started true wire phase task tasks))
  unfolding step channel_send
  parts-Muted (app_sends message) started wire phase task tasks h =
      elim (Bool-cases (is_over phase)) [
        | inl over ↦ rw over (refl, refl)
        | inr alive ↦ rw alive (refl, refl)
      ]
  parts-Muted app_ends started wire watched task tasks h = absurd (h refl)
  parts-Muted app_ends started wire overrun task tasks h = (refl, refl)
  parts-Muted app_ends started wire finished task tasks h = (refl, refl)
  parts-Muted app_ends started wire left_running task tasks h = (refl, refl)
  parts-Muted app_ends started wire finished_late task tasks h = (refl, refl)
  parts-Muted time_is_up started wire watched task tasks h = absurd (h refl)
  parts-Muted time_is_up started wire overrun task tasks h = (refl, refl)
  parts-Muted time_is_up started wire finished task tasks h = (refl, refl)
  parts-Muted time_is_up started wire left_running task tasks h = (refl, refl)
  parts-Muted time_is_up started wire finished_late task tasks h = (refl, refl)

  step-Muted : (e : Event) (c : Call) → IsSound c → c.abandoned ≡ true → Muted c (step m scope e c)
  step-Muted e c s a = by_flag c.abandoned a s.clock
    where
      by_flag :
          (abandoned : Bool)
          → abandoned ≡ true
          → (c.phase ≡ watched → abandoned ≡ false)
          → Muted
              (parts c.started abandoned c.wire c.phase c.task c.abandoned_tasks)
              (step m scope e (parts c.started abandoned c.wire c.phase c.task c.abandoned_tasks))
      by_flag true a k =
          parts-Muted e c.started c.wire c.phase c.task c.abandoned_tasks
            λ w. absurd (let b = k w in cc)
      by_flag false a k = absurd (cc)

  -- Once the middleware has answered, the wire stays as it is, whatever the app sends and however
  -- it ends.
  pub run-muted :
      (es : List Event) (c : Call)
      → IsSound c
      → c.abandoned ≡ true
      → (run m scope es c).wire ≡ c.wire
  unfolding run
  run-muted [] c s a = refl
  run-muted (e ∷ es) c s a =
      let (kept, still) = step-Muted e c s a in
      run-muted es (step m scope e c) (step-IsSound m scope renders e c s) still ∙ kept

  abbrev IsBounded : Call → ℕ → Type 0
  IsBounded c n = (c.abandoned ≡ true) ⊎ (starts c.wire ≤ n)

  -- A step adds at most the start that the app sends, or answers.
  parts-IsBounded :
      (e : Event) (started : Bool) (wire : List Message) (phase : Phase) (task : ℕ) (tasks : List ℕ)
      → IsBounded
          (step m scope e (parts started false wire phase task tasks))
          (starts wire + starts (app_messages (e ∷ [])))
  unfolding step channel_send time_out abandon
  parts-IsBounded (app_sends message) started wire phase task tasks =
      elim (Bool-cases (is_over phase)) [
        | inl over ↦ rw over (inr (omega arith))
        | inr alive ↦ rw alive (inr (rw starts-append (omega arith)))
      ]
  parts-IsBounded app_ends started wire watched task tasks = inr (omega arith)
  parts-IsBounded app_ends started wire overrun task tasks = inr (omega arith)
  parts-IsBounded app_ends started wire finished task tasks = inr (omega arith)
  parts-IsBounded app_ends started wire left_running task tasks = inr (omega arith)
  parts-IsBounded app_ends started wire finished_late task tasks = inr (omega arith)
  parts-IsBounded time_is_up true wire watched task tasks = inr (omega arith)
  parts-IsBounded time_is_up false wire watched task tasks = inl refl
  parts-IsBounded time_is_up started wire overrun task tasks = inr (omega arith)
  parts-IsBounded time_is_up started wire finished task tasks = inr (omega arith)
  parts-IsBounded time_is_up started wire left_running task tasks = inr (omega arith)
  parts-IsBounded time_is_up started wire finished_late task tasks = inr (omega arith)

  step-IsBounded :
      (e : Event) (c : Call)
      → c.abandoned ≡ false
      → IsBounded (step m scope e c) (starts c.wire + starts (app_messages (e ∷ [])))
  step-IsBounded e c a = by_flag c.abandoned a
    where
      by_flag :
          (abandoned : Bool)
          → abandoned ≡ false
          → IsBounded
              (step m scope e (parts c.started abandoned c.wire c.phase c.task c.abandoned_tasks))
              (starts c.wire + starts (app_messages (e ∷ [])))
      by_flag true a = absurd (cc)
      by_flag false a = parts-IsBounded e c.started c.wire c.phase c.task c.abandoned_tasks

  app_messages-cons :
      (e : Event) (es : List Event)
      → starts (app_messages (e ∷ es)) ≡ starts (app_messages (e ∷ [])) + starts (app_messages es)
  app_messages-cons (app_sends message) es = ground arith
  app_messages-cons app_ends es = omega arith
  app_messages-cons time_is_up es = omega arith

  add_step :
      (e : Event) (es : List Event) (c : Call)
      → IsSound (step m scope e c)
      → IsBounded (step m scope e c) (starts c.wire + starts (app_messages (e ∷ [])))
      → (starts (run m scope es (step m scope e c)).wire ≡ 1)
        ⊎ (starts (run m scope es (step m scope e c)).wire
            ≤ starts (step m scope e c).wire + starts (app_messages es))
      → (starts (run m scope es (step m scope e c)).wire ≡ 1)
        ⊎ (starts (run m scope es (step m scope e c)).wire
            ≤ starts c.wire + starts (app_messages (e ∷ es)))
  add_step e es c t b (inl one) = inl one
  add_step e es c t (inl gone) (inr le) =
      inl (ap starts (run-muted es (step m scope e c) t gone) ∙ t.answered gone)
  add_step e es c t (inr few) (inr le) = inr (omega (arith, app_messages-cons e es))

  run-starts :
      (es : List Event) (c : Call)
      → IsSound c
      → (starts (run m scope es c).wire ≡ 1)
        ⊎ (starts (run m scope es c).wire ≤ starts c.wire + starts (app_messages es))
  unfolding run
  run-starts [] c s = inr (omega arith)
  run-starts (e ∷ es) c s =
      let d = step m scope e c in
      let t = step-IsSound m scope renders e c s in
      elim (Bool-cases c.abandoned) [
        | inl gone ↦ inl (ap starts (run-muted (e ∷ es) c s gone) ∙ s.answered gone)
        | inr present ↦ add_step e es c t (step-IsBounded e c present) (run-starts es d t)
      ]

  -- Over one request, in any interleaving of the app's messages, its end and the clock, the server
  -- gets at most one response, given that the app itself begins at most one and that the rendered
  -- error begins one.
  pub one_response_start :
      (task : ℕ) (tasks : List ℕ) (es : List Event)
      → starts (app_messages es) ≤ 1
      → starts (run m scope es (fresh_call task tasks)).wire ≤ 1
  one_response_start task tasks es h =
      at_most (run-starts es (fresh_call task tasks) (fresh-IsSound m scope renders task tasks))
    where
      at_most :
          (starts (run m scope es (fresh_call task tasks)).wire ≡ 1)
            ⊎ (starts (run m scope es (fresh_call task tasks)).wire ≤ 0 + starts (app_messages es))
          → starts (run m scope es (fresh_call task tasks)).wire ≤ 1
      at_most (inl one) = omega arith
      at_most (inr few) = omega arith

  unanswered_step :
      (started : Bool) (wire : List Message) (phase : Phase) (task : ℕ) (tasks : List ℕ)
      (abandoned : Bool)
      → started ≡ false
      → phase ≡ watched
      → (step m scope time_is_up (parts started abandoned wire phase task tasks)).abandoned ≡ true
        × ((step m scope time_is_up (parts started abandoned wire phase task tasks)).wire
            ≡ wire ++ m.error_body 504 m.timeout_message scope none)
  unfolding step time_out abandon
  unanswered_step started wire phase task tasks abandoned s w = rw s (rw w (refl, refl))

  -- When the time is up and no response is begun, the server gets the 504 and nothing behind it.
  pub unanswered_gets_504 :
      (task : ℕ) (tasks : List ℕ) (before after : List Event)
      → (run m scope before (fresh_call task tasks)).phase ≡ watched
      → (run m scope before (fresh_call task tasks)).started ≡ false
      → (run m scope (time_is_up ∷ after) (run m scope before (fresh_call task tasks))).wire
        ≡ (run m scope before (fresh_call task tasks)).wire
          ++ m.error_body 504 m.timeout_message scope none
  unfolding run
  unanswered_gets_504 task tasks before after w u =
      let c = run m scope before (fresh_call task tasks) in
      let s =
        run-IsSound m scope renders before (fresh_call task tasks)
          (fresh-IsSound m scope renders task tasks) in
      let (gone, answered) =
        unanswered_step c.started c.wire c.phase c.task c.abandoned_tasks c.abandoned u w in
      run-muted after (step m scope time_is_up c) (step-IsSound m scope renders time_is_up c s) gone
      ∙ answered
