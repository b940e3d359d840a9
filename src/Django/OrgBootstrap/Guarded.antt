-- ===== src/Django/OrgBootstrap/Guarded.antt =====
-- What the endpoint may do to an organization, and when it warns.
use netix_backend.Prelude.{
  ℕ, suc, ◌≡◌, refl, Bool, true, false, List, [], ◌∷◌, Option, none, some, All, arith, String,
}
use netix_backend.Prelude.Int.{ℤ, pos, ◌≤ℤ◌}
use netix_backend.Django.OrgBootstrap.{
  Field, missing, malformed, given, Body, at_least_one, bootstrap_of, teardown_of,
  validate_bootstrap, validate_teardown, Driven, stats, clone_error, other_exception, Effect,
  cloned, torn_down, warned, Answer, turned_away, invalid, refused, View, answer, clone_with,
  tear_down, post, delete,
}

-- No driver and no warning is about organization 0 or a negative one.
abbrev pub IsForTenant : Effect → Type 0
IsForTenant (cloned target source run_id) = pos 1 ≤ℤ target
IsForTenant (torn_down target) = pos 1 ≤ℤ target
IsForTenant (warned organization_id catalog text) = pos 1 ≤ℤ organization_id

-- How many drivers ran, and how many warnings were logged.
abbrev pub drivers : List Effect → ℕ
drivers [] = 0
drivers (warned n c t ∷ es) = drivers es
drivers (_ ∷ es) = suc (drivers es)

abbrev pub warnings : List Effect → ℕ
warnings [] = 0
warnings (warned n c t ∷ es) = suc (warnings es)
warnings (_ ∷ es) = warnings es

-- 1 for an answer that a driver's call is behind; 1 for a refusal.
abbrev pub drove : {S : Type 0} → Answer S → ℕ
drove turned_away = 0
drove invalid = 0
drove _ = 1

abbrev pub refusals : {S : Type 0} → Answer S → ℕ
refusals (refused status detail) = 1
refusals _ = 0

abbrev pub IsGuarded : {S : Type 0} → List Effect × Answer S → Type 0
IsGuarded (trace, a) =
    All IsForTenant trace × (drivers trace ≡ drove a) × (warnings trace ≡ refusals a)

at_least_one-le : (field : Field ℤ) (n : ℤ) → at_least_one field ≡ some n → pos 1 ≤ℤ n
at_least_one-le missing n e = absurd (cc)
at_least_one-le malformed n e = absurd (cc)
at_least_one-le (given m) n e = ground arith

module _ {S : Type 0} (view : View S) where
  answer-clone :
      (n source : ℤ) (run_id : Option String) (d : Driven S)
      → pos 1 ≤ℤ n
      → IsGuarded (answer view (cloned n source run_id) n d)
  answer-clone n source run_id (stats s) h = ((h, tt), refl, refl)
  answer-clone n source run_id (clone_error text) h = ((h, (h, tt)), refl, refl)
  answer-clone n source run_id (other_exception text) h = ((h, tt), refl, refl)

  answer-teardown : (n : ℤ) (d : Driven S) → pos 1 ≤ℤ n → IsGuarded (answer view (torn_down n) n d)
  answer-teardown n (stats s) h = ((h, tt), refl, refl)
  answer-teardown n (clone_error text) h = ((h, (h, tt)), refl, refl)
  answer-teardown n (other_exception text) h = ((h, tt), refl, refl)

  clone_with-IsGuarded :
      (n source : Option ℤ) (run_id : Option String)
      → ((m : ℤ) → n ≡ some m → pos 1 ≤ℤ m)
      → IsGuarded (clone_with view (bootstrap_of n source run_id))
  clone_with-IsGuarded (some n) (some source) (some run_id) h = answer-clone n source _ _ (h n refl)
  clone_with-IsGuarded none source run_id h = (tt, refl, refl)
  clone_with-IsGuarded (some n) none run_id h = (tt, refl, refl)
  clone_with-IsGuarded (some n) (some source) none h = (tt, refl, refl)

  tear_down-IsGuarded :
      (n : Option ℤ) (run_id : Option String)
      → ((m : ℤ) → n ≡ some m → pos 1 ≤ℤ m)
      → IsGuarded (tear_down view (teardown_of n run_id))
  tear_down-IsGuarded (some n) (some run_id) h = answer-teardown n _ (h n refl)
  tear_down-IsGuarded none run_id h = (tt, refl, refl)
  tear_down-IsGuarded (some n) none h = (tt, refl, refl)

  -- Both methods, for any body and any verdict of the guard: a driver is called once or not at all,
  -- and only for an organization from 1 on, so that the template's catalog of organization 0 is
  -- neither overwritten nor torn down; one warning is logged for each refusal and for nothing else.
  pub post-IsGuarded :
      (admitted : Bool) (body : Body)
      → IsGuarded (post view admitted body) × IsGuarded (delete view admitted body)
  unfolding post delete validate_bootstrap validate_teardown
  post-IsGuarded false body = ((tt, refl, refl), (tt, refl, refl))
  post-IsGuarded true body = (
    clone_with-IsGuarded (at_least_one body.organization_id) _ _
        (at_least_one-le body.organization_id),
    tear_down-IsGuarded (at_least_one body.organization_id) _
        (at_least_one-le body.organization_id),
  )
