-- ===== src/Cloning/Tests.antt =====
-- Keys of concrete organizations.

use netix_backend.Prelude.{false, ◌↔◌, ◌≡◌, refl, some, none, true}
use netix_backend.Prelude.Int.{pos, negsuc}
use netix_backend.Text.Digits.{digit_value, digit_char, digits_before, show_before}
use netix_backend.Text.Show.{show_int}
use netix_backend.Cloning.{
  match_org, match_key, base_key, org_prefix, org_key, key_owner, is_org_key,
}
use netix_backend.Cloning.Keys.{is_org_key_iff, org_key_read_back}

keys : Unit {0}
unfolding match_org match_key base_key org_prefix org_key key_owner is_org_key digit_value
    digit_char digits_before show_before show_int
keys = tt

made :
    (org_key "fire_alarm" (pos 31) ≡ "nc31_fire_alarm")
    × (org_key "nc31_fire_alarm" (pos 4) ≡ "nc4_fire_alarm")
    × (org_key "x" (negsuc 0) ≡ "nc-1_x")
unfolding keys
made = (refl, refl, refl)

read_back :
    (base_key "nc3_nc4_x" ≡ "nc4_x")
    × (key_owner "nc3_" ≡ some (pos 3))
    × (key_owner "nc_x" ≡ none)
    × (is_org_key "nc03_x" (pos 3) ≡ true)
unfolding keys
read_back = (refl, refl, refl, refl)

org_key_read_back_example :
    (key_owner (org_key "a" (negsuc 0)) ≡ none)
    × (base_key (org_key "a" (negsuc 0)) ≡ org_key "a" (negsuc 0))
    × (is_org_key (org_key "a" (negsuc 0)) (negsuc 0) ≡ false)
org_key_read_back_example = org_key_read_back "a" (negsuc 0)

is_org_key_iff_example : (is_org_key "nc3_a" (pos 3) ≡ true) ↔ (key_owner "nc3_a" ≡ some (pos 3))
is_org_key_iff_example = is_org_key_iff "nc3_a" (pos 3)
