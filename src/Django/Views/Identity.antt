-- ===== src/Django/Views/Identity.antt =====
-- Who is asking, and whose row it is: the identity helpers and the object permission of views.py.
use netix_backend.Prelude.{
  Bool, true, false, not, ◌&&◌, ◌||◌, List, Option, none, some, String, str_eq, if◌then◌else◌,
  contains, Result, ok, or_raise, ◌∷◌, [], ◌>>=◌,
}
use netix_backend.Prelude.Int.{ℤ, pos, eqb_ℤ}
use netix_backend.Text.{strip, lower}
use netix_backend.Text.Digits.{parse_int}
use netix_backend.Text.Show.{show_int}

-- A claim, a column's value or a value of a body. A `thing` is an object that is no number to `int`:
-- its truth and its `str`.
pub data Scalar : Type 0 where
  null : Scalar
  flag : Bool → Scalar
  number : ℤ → Scalar
  text : String → Scalar
  thing : Bool → String → Scalar

-- str(value)
abbrev pub str : Scalar → String
str null = "None"
str (flag true) = "True"
str (flag false) = "False"
str (number n) = show_int n
str (text s) = s
str (thing b s) = s

-- bool(value)
abbrev pub truth : Scalar → Bool
truth null = false
truth (flag b) = b
truth (number n) = not (eqb_ℤ n (pos 0))
truth (text s) = not (str_eq s "")
truth (thing b s) = b

-- int(value); `none` is a TypeError or ValueError.
abbrev pub int_of : Scalar → Option ℤ
int_of null = none
int_of (flag true) = some (pos 1)
int_of (flag false) = some (pos 0)
int_of (number n) = some n
int_of (text s) = parse_int s
int_of (thing b s) = none

pub data ViewError : Type 0 where
  permission_denied : String → ViewError
  validation_error : String → String → ViewError
  http_404 : ViewError
  runtime_error : String → ViewError

-- The two claims that are read of an `envoy` dict; a missing key is `null`.
pub record Envoy : Type 0 where
  pub is_superuser : Scalar
  pub organization : Scalar

pub record RequestUser : Type 0 where
  pub is_authenticated : Bool
  pub is_superuser : Bool

-- `envoy` is `none` where the request has no envoy dict, or an empty one.
pub record Request : Type 0 where
  pub method : String
  pub envoy : Option Envoy
  pub user : Option RequestUser
  pub query_params : String → Option String

abbrev pub user_is_superuser : Option RequestUser → Bool
user_is_superuser none = false
user_is_superuser (some user) = user.is_authenticated && user.is_superuser

-- The verdict of a claim, `none` where the user decides.
abbrev pub claimed : Scalar → Option Bool
claimed null = none
claimed (text s) = some (str_eq (lower (strip s)) "true")
claimed v = some (truth v)

abbrev pub verdict_or : Bool → Option Bool → Bool
verdict_or default none = default
verdict_or default (some b) = b

abbrev pub envoy_claim : Option Envoy → Option Bool
envoy_claim none = none
envoy_claim (some envoy) = claimed envoy.is_superuser

unfoldable pub is_superuser : Request → Bool
is_superuser request = verdict_or (user_is_superuser request.user) (envoy_claim request.envoy)

-- caller in (None, "", "bogus")
abbrev pub is_unresolved : Scalar → Bool
is_unresolved null = true
is_unresolved (text s) = str_eq s "" || str_eq s "bogus"
is_unresolved v = false

-- 0 is the platform.
abbrev pub unless_platform : ℤ → Option ℤ
unless_platform organization_id =
    if eqb_ℤ organization_id (pos 0) then none else some organization_id

abbrev pub invalid_organization : ViewError
invalid_organization = permission_denied "The authenticated organization is invalid."

abbrev pub organization_of : Scalar → Result ViewError (Option ℤ)
organization_of caller =
    if is_unresolved caller
    then ok none
    else or_raise invalid_organization (int_of caller) >>= λ n. ok (unless_platform n)

abbrev pub tenant_of : Bool → Option Envoy → Result ViewError (Option ℤ)
tenant_of superuser none = ok none
tenant_of true (some envoy) = ok none
tenant_of false (some envoy) = organization_of envoy.organization

unfoldable pub tenant_organization_id : Request → Result ViewError (Option ℤ)
tenant_organization_id request = tenant_of (is_superuser request) request.envoy

abbrev pub safe_methods : List String
safe_methods = "GET" ∷ "HEAD" ∷ "OPTIONS" ∷ []

-- `owner` is the row's `organization_id`, `null` where it has none.
abbrev pub owned_by : Scalar → Scalar → Bool
owned_by null caller = true
owned_by owner caller = str_eq (str owner) (str caller)

abbrev pub envoy_owns : Scalar → Option Envoy → Bool
envoy_owns owner none = true
envoy_owns owner (some envoy) =
    (str_eq (str envoy.organization) "0" || str_eq (lower (str envoy.is_superuser)) "true")
    || owned_by owner envoy.organization

unfoldable pub legacy_object_org_permission : Request → Scalar → Bool
legacy_object_org_permission request owner =
    contains safe_methods request.method || envoy_owns owner request.envoy

pub data OwnershipMode : Type 0 where
  library legacy_open off : OwnershipMode

abbrev pub action_in : List String → Option String → Bool
action_in actions none = false
action_in actions (some action) = contains actions action

-- `library_check` is the verdict of envoy_pyauth's `EnvoyObjectOrgOwnership`.
unfoldable pub has_object_permission :
    (Request → Scalar → Bool)
    → OwnershipMode
    → List String
    → Option String
    → Request
    → Scalar
    → Bool
has_object_permission library_check off exempt action request owner = true
has_object_permission library_check legacy_open exempt action request owner =
    action_in exempt action || legacy_object_org_permission request owner
has_object_permission library_check library exempt action request owner =
    action_in exempt action || library_check request owner
