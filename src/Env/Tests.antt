-- ===== src/Env/Tests.antt =====
-- Runs of the environment readers, and the theorems at inputs that meet their hypotheses.
use netix_backend.Text.Show.{show_int}
use netix_backend.Env.Numbers.{env_int-show_int}
use netix_backend.Env.Lookup.{IsFirstSet}
use netix_backend.Prelude.{
  ◌↔◌, ◌≡◌, refl, true, false, [], ◌∷◌, none, some, ok, err, str_eq, if◌then◌else◌,
}
use netix_backend.Prelude.Int.{pos, negsuc}
use netix_backend.Text.{strip, lower, translate}
use netix_backend.Text.Digits.{parse_int, int_signed, int_digits, digit_value}
use netix_backend.Env.{
  credential_names, Environ, flag, spelled, lookup, recognise, parse_bool, env_bool,
  env_bool_strict, env_int, first_set, service_authorization, missing, not_an_integer,
}
use netix_backend.Env.Credentials.{service_authorization-ok}

-- All of the readers, opened.
env : Unit {0}
unfolding env_bool env_bool_strict parse_bool recognise lookup lower translate strip env_int
    parse_int int_signed int_digits digit_value first_set service_authorization
env = tt

abbrev config : Environ
config name =
    if str_eq name "DEBUG"
    then some " TRUE "
    else if str_eq name "BLANK"
    then some "  "
    else if str_eq name "PORT"
    then some "-80"
    else if str_eq name "AUTH"
    then some "key"
    else if str_eq name "ODD"
    then some "Ja"
    else none

reads :
    (env_bool config "DEBUG" (flag false) ≡ true)
    × (env_bool config "BLANK" (spelled "On") ≡ true)
    × (env_int config "PORT" (pos 1) ≡ ok (negsuc 79))
    × (env_int config "ODD" (pos 1) ≡ err (not_an_integer "ODD" "Ja"))
    × (env_int config "BLANK" (pos 1) ≡ ok (pos 1))
unfolding env
reads = (refl, refl, refl, refl, refl)

borrowed : service_authorization config ("BLANK" ∷ "AUTH" ∷ []) "USER_SVC_AUTH" ≡ ok "key"
unfolding env
borrowed = refl

refused : service_authorization config ("BLANK" ∷ []) "" ≡ err (missing ("BLANK" ∷ []))
unfolding env
refused = refl

int_forms :
    (parse_int " +1_000 " ≡ some (pos 1000))
    × (parse_int "1__0" ≡ none)
    × (parse_int "３4" ≡ some (pos 34))
unfolding env
int_forms = (refl, refl, refl)

service_authorization-ok_example :
    (service_authorization config ("BLANK" ∷ "AUTH" ∷ []) "USER_SVC_AUTH" ≡ ok "key")
    ↔ IsFirstSet config "key" (credential_names ("BLANK" ∷ "AUTH" ∷ []) "USER_SVC_AUTH")
service_authorization-ok_example =
    service_authorization-ok config ("BLANK" ∷ "AUTH" ∷ []) "USER_SVC_AUTH" "key"

env_int-show_int_example :
    env_int (λ name. some (show_int (negsuc 79))) "PORT" (pos 1) ≡ ok (negsuc 79)
env_int-show_int_example =
    env_int-show_int (λ name. some (show_int (negsuc 79))) "PORT" (negsuc 79) (pos 1) refl
