-- ===== src/Http/Retry/Delays.antt =====
-- The delays and the defaults of the retry policy.
use mathlib.Core.Option
use netix_backend.Prelude.{
  str_eq_of_ne, subst, [], ◌∷◌, ℕ, ◌≡◌, ◌≢◌, ◌⊎◌, ◌||◌, ◌&&◌, not, inl, inr, refl, Bool, true,
  false, any, Option, none, some, String, arith, leb, ◌==◌, Bool-cases, str_eq, ok,
}
use netix_backend.Prelude.Int.{ℤ, pos}
use netix_backend.Prelude.Floats.{Floats, IsOrdered, fmin, fmax}
use netix_backend.Text.Show.{show_int}
use netix_backend.Env.{Environ, env_int, lookup, or_default}
use netix_backend.Env.Numbers.{env_int-show_int}
use netix_backend.Http.Retry.{
  Response, Bound, clamp, either_form, header_seconds, parse_retry_after_seconds, default_retries,
  init_policy, is_retryable_status, session_status_forcelist,
}

module _ (f : Floats) (o : IsOrdered f) where
  open f use {F, less, less_eq, tenths, parse_float}
  open o use {
    is_nan, less_nan_left, less_nan_right, less_irrefl, less_eq_of_less, less_eq_of_not_less,
  }

  abbrev IsAtMost : F → F → Type 0
  IsAtMost a b = less_eq a b ≡ true

  IsAtMost-refl : (a : F) → is_nan a ≡ false → IsAtMost a a
  IsAtMost-refl a na = less_eq_of_not_less a a na na (less_irrefl a)

  -- What a header may give: not a number, or a delay between 0 and the cap.
  abbrev IsSleepable : F → F → Type 0
  IsSleepable cap d = (is_nan d ≡ true) ⊎ (IsAtMost (tenths 0) d × IsAtMost d cap)

  fmin-IsSleepable :
      (m cap : F)
      → is_nan cap ≡ false
      → IsAtMost (tenths 0) cap
      → (is_nan m ≡ true) ⊎ IsAtMost (tenths 0) m
      → IsSleepable cap (fmin f m cap)
  fmin-IsSleepable m cap nc zc h = elim (Bool-cases (less cap m)) [
    | inl lt ↦ rw lt (inr (zc, IsAtMost-refl cap nc))
    | inr ge ↦ rw ge (keep (Bool-cases (is_nan m)) h ge)
  ]
    where
      keep :
          (is_nan m ≡ true) ⊎ (is_nan m ≡ false)
          → (is_nan m ≡ true) ⊎ IsAtMost (tenths 0) m
          → less cap m ≡ false
          → IsSleepable cap m
      keep (inl n) k ge = inl n
      keep (inr n) (inl n') ge = inl n'
      keep (inr n) (inr z) ge = inr (z, less_eq_of_not_less m cap n nc ge)

  fmax-at_least :
      (x : F)
      → is_nan (tenths 0) ≡ false
      → (is_nan (fmax f x (tenths 0)) ≡ true) ⊎ IsAtMost (tenths 0) (fmax f x (tenths 0))
  fmax-at_least x n0 = elim (Bool-cases (less x (tenths 0))) [
    | inl lt ↦ rw lt (inr (IsAtMost-refl (tenths 0) n0))
    | inr ge ↦ rw ge (elim (Bool-cases (is_nan x)) [
      | inl n ↦ inl n
      | inr n ↦ inr (less_eq_of_not_less (tenths 0) x n0 n ge)
    ])
  ]

  module _ (until : String → Option F) (cap : F) (zero_number : is_nan (tenths 0) ≡ false)
      (cap_number : is_nan cap ≡ false) (cap_nonneg : less_eq (tenths 0) cap ≡ true) where
    clamp-IsSleepable : (x : F) → IsSleepable cap (clamp f cap x)
    clamp-IsSleepable x =
        fmin-IsSleepable (fmax f x (tenths 0)) cap cap_number cap_nonneg
          (fmax-at_least x zero_number)

    AllSleepable : Option F → Type 0
    AllSleepable o = (d : F) → o ≡ some d → IsSleepable cap d

    AllSleepable-some : (x : F) → IsSleepable cap x → AllSleepable (some x)
    unfolding AllSleepable
    AllSleepable-some x h d e = let same : x ≡ d = cc in subst (IsSleepable cap) same h

    either_form-sleepable :
        (value : String) (o : Option F) → AllSleepable (either_form f until cap value o)
    either_form-sleepable value (some x) = AllSleepable-some (clamp f cap x) (clamp-IsSleepable x)
    either_form-sleepable value none = dated (until value)
      where
        dated : (o : Option F) → AllSleepable (Option.map (clamp f cap) o)
        dated none = unfold AllSleepable in λ d e. absurd (cc)
        dated (some x) = AllSleepable-some (clamp f cap x) (clamp-IsSleepable x)

    header-sleepable : (o : Option String) → AllSleepable (header_seconds f until cap o)
    header-sleepable none = unfold AllSleepable in λ d e. absurd (cc)
    header-sleepable (some value) = elim (Bool-cases (str_eq value "")) [
      | inl blank ↦ rw blank (unfold AllSleepable in λ d e. absurd (cc))
      | inr text ↦ rw text (either_form-sleepable value (parse_float value))
    ]

  -- A delay taken from a Retry-After header is not a number, or lies between 0 and the cap.
  pub retry_after_bounds :
      (until : String → Option F) (response : Response) (cap d : F)
      → is_nan (tenths 0) ≡ false
      → is_nan cap ≡ false
      → less_eq (tenths 0) cap ≡ true
      → parse_retry_after_seconds f until response cap ≡ some d
      → (is_nan d ≡ true) ⊎ ((less_eq (tenths 0) d ≡ true) × (less_eq d cap ≡ true))
  unfolding parse_retry_after_seconds AllSleepable
  retry_after_bounds until response cap d n0 nc zc e =
      header-sleepable until cap n0 nc zc response.retry_after d e

  -- A header that reads as not-a-number is passed on unclamped: it is the delay that is slept.
  pub retry_after_nan :
      (until : String → Option F) (status_code : ℕ) (value : String) (cap x : F)
      → value ≢ ""
      → parse_float value ≡ some x
      → is_nan x ≡ true
      → parse_retry_after_seconds f until
          (record { status_code = status_code; retry_after = some value })
          cap
        ≡ some x
  unfolding parse_retry_after_seconds
  retry_after_nan until status_code value cap x h e n =
      rw (str_eq_of_ne value "" h)
        (rw e (rw (less_nan_left x (tenths 0) n) (rw (less_nan_right cap x n))))

-- The session's list of statuses lacks the 5xx other than 500, 502, 503 and 504.
pub session_forcelist_gap :
    (s : ℕ)
    → is_retryable_status s
      ≡ any (λ t. t == s) session_status_forcelist
        || (leb 500 s && not (any (λ t. t == s) (500 ∷ 502 ∷ 503 ∷ 504 ∷ [])))
unfolding is_retryable_status
session_forcelist_gap s = ground arith

module _ (f : Floats) (env : Environ) (b : Bound f.F) where
  -- An explicit `retries` is the policy's, 0 included; the environment and the aliases are not read.
  pub init_policy-given :
      (retries : ℤ) (backoff_factor : f.F) (opt_in : Bool) (cap : f.F)
      → init_policy f env b (some retries) (some backoff_factor) opt_in cap
        ≡ ok (record {
          retries = retries;
          backoff_factor = backoff_factor;
          retry_non_idempotent = opt_in;
          max_retry_after = cap;
        })
  unfolding init_policy
  init_policy-given retries backoff_factor opt_in cap = refl

  -- The variable wins over a bound Django setting, and that over 2.
  pub default_retries_precedence :
      (z : ℤ)
      → (env "NETIX_HTTP_RETRIES" ≡ some (show_int z) → default_retries f env b ≡ ok z)
        × (lookup env "NETIX_HTTP_RETRIES" ≡ none
            → default_retries f env b ≡ ok (or_default (pos 2) (Option.map f.truncate b.retries)))
  unfolding default_retries
  default_retries_precedence z =
      (env_int-show_int env "NETIX_HTTP_RETRIES" z _, λ e. unfold env_int in rw (e, env_int))
