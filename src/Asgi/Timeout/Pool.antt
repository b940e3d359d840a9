-- ===== src/Asgi/Timeout/Pool.antt =====
-- netix_backend/asgi/timeout.py: the set of abandoned tasks, over the run of one request.
use netix_backend.Prelude.{
  ℕ, ◌≡◌, refl, ap, inl, inr, Bool, true, false, List, [], ◌∷◌, arith, Bool-cases,
}
use netix_backend.Asgi.Timeout.{
  Message, Middleware, Scope, Call, Phase, watched, overrun, finished, left_running, finished_late,
  Event, app_sends, app_ends, time_is_up, channel_send, abandon, time_out, step, run, is_over,
  discard, fresh_call,
}
use netix_backend.Asgi.Timeout.Soundness.{parts}

-- The set while a request that found `tasks` in it is in a phase.
abbrev pub pool_at : ℕ → List ℕ → Phase → List ℕ
pool_at task tasks left_running = task ∷ tasks
pool_at task tasks _ = tasks

discard-head :
    (task : ℕ) (tasks : List ℕ) → discard task tasks ≡ tasks → discard task (task ∷ tasks) ≡ tasks
discard-head task tasks absent = ground (arith, absent)

module _ (m : Middleware) (scope : Scope) (task : ℕ) (tasks : List ℕ)
    (absent : discard task tasks ≡ tasks) where
  abbrev IsPooled : Call → Type 0
  IsPooled c = (c.task ≡ task) × (c.abandoned_tasks ≡ pool_at task tasks c.phase)

  parts-IsPooled :
      (e : Event) (started abandoned : Bool) (wire : List Message) (phase : Phase) (t : ℕ)
      (ts : List ℕ)
      → t ≡ task
      → ts ≡ pool_at task tasks phase
      → IsPooled (step m scope e (parts started abandoned wire phase t ts))
  unfolding step channel_send time_out abandon
  parts-IsPooled (app_sends message) started abandoned wire phase t ts h k =
      elim (Bool-cases (is_over phase)) [
        | inl over ↦ rw over (h, k)
        | inr alive ↦ elim (Bool-cases abandoned) [
          | inl gone ↦ rw (alive, gone) (h, k)
          | inr present ↦ rw (alive, present) (h, k)
        ]
      ]
  parts-IsPooled app_ends started abandoned wire watched t ts h k = (h, k)
  parts-IsPooled app_ends started abandoned wire overrun t ts h k = (h, k)
  parts-IsPooled app_ends started abandoned wire finished t ts h k = (h, k)
  parts-IsPooled app_ends started abandoned wire left_running t ts h k =
      (h, rw (h, k) (discard-head task tasks absent))
  parts-IsPooled app_ends started abandoned wire finished_late t ts h k = (h, k)
  parts-IsPooled time_is_up true abandoned wire watched t ts h k = (h, k)
  parts-IsPooled time_is_up false abandoned wire watched t ts h k =
      (h, rw (h, k) (ap (λ ts. task ∷ ts) absent))
  parts-IsPooled time_is_up started abandoned wire overrun t ts h k = (h, k)
  parts-IsPooled time_is_up started abandoned wire finished t ts h k = (h, k)
  parts-IsPooled time_is_up started abandoned wire left_running t ts h k = (h, k)
  parts-IsPooled time_is_up started abandoned wire finished_late t ts h k = (h, k)

  run-IsPooled : (es : List Event) (c : Call) → IsPooled c → IsPooled (run m scope es c)
  unfolding run
  run-IsPooled [] c p = p
  run-IsPooled (e ∷ es) c (h, k) =
      run-IsPooled es (step m scope e c)
        (parts-IsPooled e c.started c.abandoned c.wire c.phase c.task c.abandoned_tasks h k)

  -- In any interleaving of the app's messages, its end and the clock, a request whose task is not
  -- among the abandoned ones is counted there exactly while it runs on behind its 504: afterwards,
  -- and in every other phase, the set is what the request found.
  pub pool_while_left_running :
      (es : List Event)
      → (run m scope es (fresh_call task tasks)).abandoned_tasks
        ≡ pool_at task tasks (run m scope es (fresh_call task tasks)).phase
  pool_while_left_running es =
      let (h, k) = run-IsPooled es (fresh_call task tasks) (refl, refl) in k
