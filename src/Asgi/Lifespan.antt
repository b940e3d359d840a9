-- ===== src/Asgi/Lifespan.antt =====
-- netix_backend/asgi/lifespan.py: the handshake that is answered outside the application.
mod Tests
use netix_backend.Prelude.{
  ℕ, zero, suc, ◌+◌, ◌≡◌, refl, Bool, true, false, List, [], ◌∷◌, ◌++◌, Option, none, some, String,
  str_eq, if◌then◌else◌, ap, arith, Bool-cases, inl, inr,
}

abbrev pub startup : String
startup = "lifespan.startup"

abbrev pub shutdown : String
shutdown = "lifespan.shutdown"

abbrev pub startup_complete : String
startup_complete = "lifespan.startup.complete"

abbrev pub shutdown_complete : String
shutdown_complete = "lifespan.shutdown.complete"

-- The messages that the server sends until it is waited for again; `none` where the loop still
-- waits at their end.
pub record Served : Type 0 where
  pub sent : List String
  pub left : Option (List String)

abbrev pub answered : String → Served → Served
answered message s = record s { sent = message ∷ s.sent }

-- `serve_lifespan` over the types of the messages that arrive.
unfoldable pub serve_lifespan : List String → Served
serve_lifespan [] = record { sent = []; left = none }
serve_lifespan (message ∷ messages) =
    let rest = serve_lifespan messages in
    if str_eq message startup
    then answered startup_complete rest
    else if str_eq message shutdown
    then record { sent = shutdown_complete ∷ []; left = some messages }
    else rest

-- What `wrap` and `LifespanWrapper` do with a scope of a type.
pub data Route : Type 0 where
  handshake : Served → Route
  forwarded : (kind : String) → Route

unfoldable pub wrap : String → List String → Route
wrap kind messages =
    if str_eq kind "lifespan" then handshake (serve_lifespan messages) else forwarded kind

abbrev pub startups : List String → ℕ
startups [] = 0
startups (message ∷ messages) =
    if str_eq message startup then suc (startups messages) else startups messages

abbrev pub replicate : ℕ → String → List String
replicate zero s = []
replicate (suc n) s = s ∷ replicate n s

abbrev pub has_shutdown : List String → Bool
has_shutdown [] = false
has_shutdown (message ∷ messages) = if str_eq message shutdown then true else has_shutdown messages

-- Up to the first shutdown every startup is answered, in order; then the shutdown is, and the
-- handshake ends with the rest unread.
pub serve_lifespan-shutdown :
    (before after : List String)
    → has_shutdown before ≡ false
    → serve_lifespan (before ++ shutdown ∷ after) ≡ record {
      sent = replicate (startups before) startup_complete ++ shutdown_complete ∷ [];
      left = some after;
    }
unfolding serve_lifespan
serve_lifespan-shutdown [] after h = refl
serve_lifespan-shutdown (message ∷ before) after h =
    let later = serve_lifespan-shutdown before after (ground arith) in
    elim (Bool-cases (str_eq message startup)) [
      | inl starts ↦ rw starts (rw later refl)
      | inr other ↦ elim (Bool-cases (str_eq message shutdown)) [
        | inl ends ↦ absurd (ground arith)
        | inr ignored ↦ rw other (rw ignored later)
      ]
    ]
