-- ===== src/Env/Numbers.antt =====
-- Integer variables.
use netix_backend.Prelude.{◌≡◌, some, String, ok, str_eq_of_ne}
use netix_backend.Prelude.Int.{ℤ}
use netix_backend.Text.Show.{show_int, show_int_clean, parse_int-show_int}
use netix_backend.Env.{Environ, lookup, env_int}

lookup-show_int :
    (env : Environ) (name : String) (z : ℤ)
    → env name ≡ some (show_int z)
    → lookup env name ≡ some (show_int z)
unfolding lookup
lookup-show_int env name z e =
    rw (e, lookup)
      (rw (show_int_clean z).0 (rw (str_eq_of_ne (show_int z) "" (show_int_clean z).1)))

-- A variable that holds a printed integer is read back as that integer, whatever the default.
pub env_int-show_int :
    (env : Environ) (name : String) (z default : ℤ)
    → env name ≡ some (show_int z)
    → env_int env name default ≡ ok z
unfolding env_int
env_int-show_int env name z default e =
    rw (lookup-show_int env name z e, env_int) (rw (parse_int-show_int z))
