-- ===== src/Asgi/Registration/Once.antt =====
-- The latch: one registration for a process.
use netix_backend.Prelude.{
  suc, ◌≤◌, ◌≡◌, ap, refl, ◌⊎◌, Bool, true, false, not, List, [], ◌∷◌, String, str_eq,
  if◌then◌else◌, arith, Bool-cases, inl, inr,
}
use netix_backend.Env.{Environ}
use netix_backend.Asgi.Registration.{
  Latch, trigger_service_registration, registration_asgi, registration_enabled,
}

-- Scopes of these types, each under the environment of its time, one after the other.
abbrev pub serve_all : List (Environ × String) → Latch → Latch
serve_all [] l = l
serve_all ((env, kind) ∷ scopes) l = serve_all scopes (registration_asgi env kind l)

asgi-started :
    (env : Environ) (kind : String) (l : Latch)
    → l.started ≡ true
    → registration_asgi env kind l ≡ l
unfolding registration_asgi trigger_service_registration
asgi-started env kind l h = simp h (by_tests (str_eq kind "http") (registration_enabled env))
  where
    by_tests :
        (b c : Bool)
        → (if b then (if◌then◌else◌ {A = Bool × Latch} (not c) (false, l) (false, l)).1 else l) ≡ l
    by_tests true true = refl
    by_tests true false = refl
    by_tests false c = refl

serve_all-started :
    (scopes : List (Environ × String)) (l : Latch) → l.started ≡ true → serve_all scopes l ≡ l
serve_all-started [] l h = refl
serve_all-started ((env, kind) ∷ scopes) l h =
    rw (asgi-started env kind l h) (serve_all-started scopes l h)

asgi_cases :
    (env : Environ) (kind : String) (l : Latch)
    → l.started ≡ false
    → (registration_asgi env kind l ≡ l)
      ⊎ (((registration_asgi env kind l).started ≡ true)
          × ((registration_asgi env kind l).threads ≡ suc l.threads))
unfolding registration_asgi trigger_service_registration
asgi_cases env kind l h = elim (Bool-cases (str_eq kind "http")) [
  | inr other ↦ rw other (inl refl)
  | inl http ↦ elim (Bool-cases (registration_enabled env)) [
    | inr disabled ↦ rw http (rw disabled (inl refl))
    | inl enabled ↦ rw http (rw enabled (simp h (inr (refl, refl))))
  ]
]

-- However many scopes a process serves, its registration is started at most once between two resets.
pub serve_all-threads :
    (scopes : List (Environ × String)) (l : Latch)
    → l.started ≡ false
    → (serve_all scopes l).threads ≤ suc l.threads
serve_all-threads [] l h = omega arith
serve_all-threads ((env, kind) ∷ scopes) l h = elim (asgi_cases env kind l h) [
  | inl same ↦ rw (same, serve_all) (serve_all-threads scopes l h)
  | inr (on, counted) ↦
      let d = registration_asgi env kind l in
      let same = ap (λ x. x.threads) (serve_all-started scopes d on) in omega (arith, same, counted)
]
