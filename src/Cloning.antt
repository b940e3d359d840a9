-- ===== src/Cloning.antt =====
-- netix_backend/cloning.py: the machine keys that belong to an organization.
pub mod Keys
mod Tests
use Prim.Native.Char.{Char, code}
use Prim.Native.String
use Prim.Native.String.{[], ◌∷◌}
use netix_backend.Prelude.{
  ℕ, ◌+◌, ◌*◌, ◌==◌, ◌&&◌, Bool, true, false, Option, none, some, String, if◌then◌else◌, str_eq,
  ◌≡◌,
}
use netix_backend.Prelude.Int.{ℤ, pos, eqb_ℤ}
use netix_backend.Text.Digits.{digit_value}
use netix_backend.Text.Show.{show_int}

abbrev pub template_org_id : ℤ
template_org_id = pos 0

abbrev pub org_key_prefix : String
org_key_prefix = "nc"

-- f"{ORG_KEY_PREFIX}{int(org_id)}_"
unfoldable pub org_prefix : ℤ → String
org_prefix org_id = String.◌++◌ org_key_prefix (String.◌++◌ (show_int org_id) "_")

-- The groups of the regular expression: the number, and the text behind its "_".
unfoldable pub match_org : ℕ → Bool → String → Option (ℕ × String)
match_org org seen [] = none
match_org org seen (c ∷ s) = elim (digit_value c) [
  | some d ↦ match_org (org * 10 + d) true s
  | none ↦ if seen && code c == b'_' then some (org, s) else none
]

-- _ORG_KEY_RE.match(name)
unfoldable pub match_key : String → Option (ℕ × String)
match_key (n ∷ c ∷ s) = if code n == b'n' && code c == b'c' then match_org 0 false s else none
match_key _ = none

abbrev base_of : String → Option (ℕ × String) → String
base_of name none = name
base_of name (some (org, base)) = base

unfoldable pub base_key : String → String
base_key name = base_of name (match_key name)

unfoldable pub org_key : String → ℤ → String
org_key name org_id = String.◌++◌ (org_prefix org_id) (base_key name)

abbrev owner_of : Option (ℕ × String) → Option ℤ
owner_of none = none
owner_of (some (org, base)) = some (pos org)

unfoldable pub key_owner : String → Option ℤ
key_owner name = owner_of (match_key name)

abbrev same_owner : Option ℤ → ℤ → Bool
same_owner none org_id = false
same_owner (some org) org_id = eqb_ℤ org org_id

unfoldable pub is_org_key : String → ℤ → Bool
is_org_key name org_id = same_owner (key_owner name) org_id
