-- ===== src/Asgi/Timeout/Soundness.antt =====
-- The flags of a request under the clock agree with what went over its wire.
use netix_backend.Prelude.{
  ℕ, suc, ◌+◌, ◌≡◌, inl, inr, refl, Bool, true, false, List, [], ◌∷◌, ◌++◌, none, if◌then◌else◌,
  arith, Bool-cases,
}
use netix_backend.Asgi.Timeout.{
  Message, Middleware, Scope, Call, Phase, watched, overrun, finished, left_running, finished_late,
  Event, app_sends, app_ends, time_is_up, is_start, channel_send, abandon, time_out, settle, step,
  run, is_over, is_watched, fresh_call,
}

-- How many responses are begun among messages.
abbrev pub starts : List Message → ℕ
starts [] = 0
starts (message ∷ messages) = if is_start message then suc (starts messages) else starts messages

abbrev pub app_messages : List Event → List Message
app_messages [] = []
app_messages (app_sends message ∷ es) = message ∷ app_messages es
app_messages (_ ∷ es) = app_messages es

pub starts-append : (xs ys : List Message) → starts (xs ++ ys) ≡ starts xs + starts ys
starts-append [] ys = omega arith
starts-append (x ∷ xs) ys = ground (arith, starts-append xs ys)

-- The flags agree with the wire and the phase: before we answer, `started` says whether a response
-- is begun; afterwards exactly one is, and it is ours.
pub record IsSound (c : Call) : Type 0 where
  pub running : c.abandoned ≡ false → c.started ≡ false → starts c.wire ≡ 0
  pub answered : c.abandoned ≡ true → starts c.wire ≡ 1
  pub clock : c.phase ≡ watched → c.abandoned ≡ false

abbrev pub parts : Bool → Bool → List Message → Phase → ℕ → List ℕ → Call
parts started abandoned wire phase task tasks = record {
  task = task;
  started = started;
  abandoned = abandoned;
  wire = wire;
  phase = phase;
  abandoned_tasks = tasks;
}

module _ (m : Middleware) (scope : Scope)
    (renders : starts (m.error_body 504 m.timeout_message scope none) ≡ 1) where
  -- Each step over a call given by its parts.
  send-IsSound :
      (message : Message) (started abandoned : Bool) (wire : List Message) (phase : Phase)
      (task : ℕ) (tasks : List ℕ)
      → IsSound (parts started abandoned wire phase task tasks)
      → IsSound (channel_send message (parts started abandoned wire phase task tasks))
  unfolding channel_send
  send-IsSound message started true wire phase task tasks s = s
  send-IsSound message true false wire phase task tasks s = record {
    running = λ a b. absurd (cc);
    answered = λ a. absurd (cc);
    clock = s.clock;
  }
  send-IsSound message false false wire phase task tasks s = record {
    running = λ a b. rw starts-append (rw b (rw (s.running refl refl) refl));
    answered = λ a. absurd (cc);
    clock = s.clock;
  }

  settle-IsSound :
      (started abandoned : Bool) (wire : List Message) (phase : Phase) (task : ℕ) (tasks : List ℕ)
      → IsSound (parts started abandoned wire phase task tasks)
      → IsSound (settle phase (parts started abandoned wire phase task tasks))
  settle-IsSound started abandoned wire watched task tasks s = record {
    running = s.running;
    answered = s.answered;
    clock = λ e. absurd (cc);
  }
  settle-IsSound started abandoned wire overrun task tasks s = record {
    running = s.running;
    answered = s.answered;
    clock = λ e. absurd (cc);
  }
  settle-IsSound started abandoned wire left_running task tasks s = record {
    running = s.running;
    answered = s.answered;
    clock = λ e. absurd (cc);
  }
  settle-IsSound started abandoned wire finished task tasks s = s
  settle-IsSound started abandoned wire finished_late task tasks s = s

  time_out-IsSound :
      (started abandoned : Bool) (wire : List Message) (task : ℕ) (tasks : List ℕ)
      → IsSound (parts started abandoned wire watched task tasks)
      → IsSound (time_out m scope (parts started abandoned wire watched task tasks))
  unfolding time_out abandon
  time_out-IsSound true abandoned wire task tasks s = record {
    running = s.running;
    answered = s.answered;
    clock = λ e. absurd (cc);
  }
  time_out-IsSound false abandoned wire task tasks s = record {
    running = λ a b. absurd (cc);
    answered = λ a. rw starts-append (rw renders (rw (s.running (s.clock refl) refl) refl));
    clock = λ e. absurd (cc);
  }

  pub step-IsSound : (e : Event) (c : Call) → IsSound c → IsSound (step m scope e c)
  unfolding step
  step-IsSound (app_sends message) c s = elim (Bool-cases (is_over c.phase)) [
    | inl over ↦ rw over s
    | inr alive ↦
        rw alive
          (send-IsSound message c.started c.abandoned c.wire c.phase c.task c.abandoned_tasks s)
  ]
  step-IsSound app_ends c s =
      settle-IsSound c.started c.abandoned c.wire c.phase c.task c.abandoned_tasks s
  step-IsSound time_is_up c s =
      by_phase c.started c.abandoned c.wire c.phase c.task c.abandoned_tasks s
    where
      by_phase :
          (started abandoned : Bool) (wire : List Message) (phase : Phase) (task : ℕ)
          (tasks : List ℕ)
          → IsSound (parts started abandoned wire phase task tasks)
          → IsSound (
              if is_watched phase
              then time_out m scope (parts started abandoned wire phase task tasks)
              else parts started abandoned wire phase task tasks)
      by_phase started abandoned wire watched task tasks s =
          time_out-IsSound started abandoned wire task tasks s
      by_phase started abandoned wire overrun task tasks s = s
      by_phase started abandoned wire left_running task tasks s = s
      by_phase started abandoned wire finished task tasks s = s
      by_phase started abandoned wire finished_late task tasks s = s

  pub run-IsSound : (es : List Event) (c : Call) → IsSound c → IsSound (run m scope es c)
  unfolding run
  run-IsSound [] c s = s
  run-IsSound (e ∷ es) c s = run-IsSound es (step m scope e c) (step-IsSound e c s)

  pub fresh-IsSound : (task : ℕ) (tasks : List ℕ) → IsSound (fresh_call task tasks)
  fresh-IsSound task tasks = record {
    running = λ a b. refl;
    answered = λ a. absurd (cc);
    clock = λ e. refl;
  }
