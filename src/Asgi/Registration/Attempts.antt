-- ===== src/Asgi/Registration/Attempts.antt =====
-- How often a service registers, and with what.
use netix_backend.Prelude.{
  ℕ, zero, suc, ◌+◌, ◌<◌, ◌≡◌, ◌≢◌, inl, inr, refl, Bool, true, false, List, [], ◌∷◌, ◌++◌, All,
  Option, none, some, String, str_eq, if◌then◌else◌, length, arith, Bool-cases, eq_iff, subst,
}
use native.Mathlib.Nat.{zero-add}
use netix_backend.Env.{Environ}
use netix_backend.Prelude.Dict.{Dict}
use netix_backend.Asgi.Registration.{
  put_accepted, Put, Event, slept, put, registered, log_exception, log_warning, register_from,
  register, wait, log_failure, registration_payload, registration_enabled, read_text, missing,
  missing_fields, field_values, registration_fields, url_env, token_env, configured, Configuration,
  if_empty,
}

-- How many attempts a trace shows.
abbrev pub attempts : {D : Type 0} → List (Event D) → ℕ
attempts [] = 0
attempts (put n ∷ es) = suc (attempts es)
attempts (_ ∷ es) = attempts es

attempts-append :
    {D : Type 0} (xs ys : List (Event D)) → attempts (xs ++ ys) ≡ attempts xs + attempts ys
attempts-append [] ys = omega arith
attempts-append (slept d ∷ xs) ys = attempts-append xs ys
attempts-append (put n ∷ xs) ys = omega (arith, attempts-append xs ys)
attempts-append (registered n ∷ xs) ys = attempts-append xs ys
attempts-append (log_exception n ∷ xs) ys = attempts-append xs ys
attempts-append (log_warning n ∷ xs) ys = attempts-append xs ys

-- No variable of a list is empty.
abbrev pub AllSet : Environ → Dict String → Type 0
AllSet env fields = All (λ (field, name). read_text env name ≢ "") fields

set_of_test : (value : String) → str_eq value "" ≡ false → value ≢ ""
set_of_test value h e = let b = (eq_iff value "").1 e in absurd (cc)

if_empty-none : (name value : String) → if_empty name value ≡ [] → value ≢ ""
if_empty-none name value h = elim (Bool-cases (str_eq value "")) [
  | inl blank ↦ absurd (let bad = rw blank at h in cc)
  | inr stated ↦ set_of_test value stated
]

append-nil : {A : Type 0} (xs ys : List A) → xs ++ ys ≡ [] → (xs ≡ []) × (ys ≡ [])
append-nil [] ys h = (refl, h)
append-nil (x ∷ xs) ys h = absurd (cc)

missing_fields-none :
    (env : Environ) (fields : Dict String) → missing_fields env fields ≡ [] → AllSet env fields
unfolding missing_fields
missing_fields-none env [] h = tt
missing_fields-none env ((field, name) ∷ fields) h =
    elim (Bool-cases (str_eq (read_text env name) "")) [
      | inl blank ↦ absurd (let bad = rw blank at h in cc)
      | inr present ↦ (
        set_of_test (read_text env name) present,
        missing_fields-none env fields (rw present at h),
      )
    ]

-- A configuration that is used comes from a service that is enabled, and none of its nine values is
-- empty.
pub registration_payload_complete :
    (env : Environ) (c : Configuration)
    → (registration_payload env).0 ≡ some c
    → (registration_enabled env ≡ true)
      × AllSet env registration_fields
      × (c.payload ≡ field_values env registration_fields)
      × (c.url ≢ "")
      × (c.token ≢ "")
unfolding registration_payload missing
registration_payload_complete env c h = by_parts (registration_enabled env) (missing env) refl h
  where
    by_parts :
        (b : Bool) (names : List String)
        → missing env ≡ names
        → (if◌then◌else◌ {A = Option Configuration × List String} b
            (configured env names)
            (none, [])).0
          ≡ some c
        → (b ≡ true)
          × AllSet env registration_fields
          × (c.payload ≡ field_values env registration_fields)
          × (c.url ≢ "")
          × (c.token ≢ "")
    by_parts false names e k = absurd (cc)
    by_parts true (name ∷ names) e k = absurd (cc)
    by_parts true [] e k =
        let (fields, rest) =
          append-nil (missing_fields env registration_fields)
            (if_empty url_env (read_text env url_env)
              ++ if_empty token_env (read_text env token_env))
            e in
        let (url, token) =
          append-nil (if_empty url_env (read_text env url_env))
            (if_empty token_env (read_text env token_env)) rest in
        let same_url : read_text env url_env ≡ c.url = cc in
        let same_token : read_text env token_env ≡ c.token = cc in
        (
          refl,
          missing_fields-none env registration_fields fields,
          cc,
          subst (λ u. u ≢ "") same_url (if_empty-none url_env _ url),
          subst (λ t. t ≢ "") same_token (if_empty-none token_env _ token),
        )

module _ {D : Type 0} (is_zero : D → Bool) (puts : ℕ → Put) where
  wait-attempts : (delay : D) → attempts (wait is_zero puts delay) ≡ 0
  wait-attempts delay = ground arith

  log_failure-attempts :
      (n : ℕ) (delays : List D) (es : List (Event D))
      → attempts (log_failure is_zero puts n delays ∷ es) ≡ attempts es
  log_failure-attempts n [] es = refl
  log_failure-attempts n (delay ∷ delays) es = refl

  from_until :
      (k n : ℕ) (delays : List D)
      → k < length delays
      → ((j : ℕ) → j < k → put_accepted (puts (j + n)) ≡ false)
      → put_accepted (puts (k + n)) ≡ true
      → ((register_from is_zero puts n delays).1 ≡ true)
        × (attempts (register_from is_zero puts n delays).0 ≡ suc k)
  unfolding register_from
  from_until k n [] h before hit = absurd (omega arith)
  from_until zero n (delay ∷ delays) h before hit =
      rw (rw zero-add at hit) (refl, rw attempts-append (rw wait-attempts refl))
  from_until (suc k) n (delay ∷ delays) h before hit =
      let (done, counted) =
        from_until k (suc n) delays (omega arith)
          (λ j lt.
            subst (λ i. put_accepted (puts i) ≡ false) (omega arith) (before (suc j) (omega arith)))
          (subst (λ i. put_accepted (puts i) ≡ true) (omega arith) hit) in
      rw (rw zero-add at (before 0 (omega arith))) (
        done,
        rw attempts-append (rw wait-attempts (rw log_failure-attempts (omega (arith, counted)))),
      )

  from_rejected :
      (n : ℕ) (delays : List D)
      → ((j : ℕ) → j < length delays → put_accepted (puts (j + n)) ≡ false)
      → ((register_from is_zero puts n delays).1 ≡ false)
        × (attempts (register_from is_zero puts n delays).0 ≡ length delays)
  unfolding register_from
  from_rejected n [] h = (refl, refl)
  from_rejected n (delay ∷ delays) h =
      let (done, counted) = from_rejected (suc n) delays (λ j lt.
        subst (λ i. put_accepted (puts i) ≡ false) (omega arith) (h (suc j) (omega arith))) in
      rw (rw zero-add at (h 0 (omega arith))) (
        done,
        rw attempts-append (rw wait-attempts (rw log_failure-attempts (omega (arith, counted)))),
      )

  module _ (env : Environ) (retry_delays : List D) (c : Configuration)
      (configured : (registration_payload env).0 ≡ some c) where
    -- A configured service stops at the first attempt that is accepted, if the delays allow it.
    pub register_until :
        (k : ℕ)
        → k < length retry_delays
        → ((j : ℕ) → j < k → put_accepted (puts (j + 1)) ≡ false)
        → put_accepted (puts (k + 1)) ≡ true
        → ((register is_zero puts env retry_delays).1 ≡ true)
          × (attempts (register is_zero puts env retry_delays).0 ≡ suc k)
    unfolding register
    register_until k h before hit = rw configured (from_until k 1 retry_delays h before hit)

    -- Where none is accepted it gives up after one attempt for each delay.
    pub register_gives_up :
        ((j : ℕ) → j < length retry_delays → put_accepted (puts (j + 1)) ≡ false)
        → ((register is_zero puts env retry_delays).1 ≡ false)
          × (attempts (register is_zero puts env retry_delays).0 ≡ length retry_delays)
    unfolding register
    register_gives_up h = rw configured (from_rejected 1 retry_delays h)
