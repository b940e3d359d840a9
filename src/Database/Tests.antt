-- ===== src/Database/Tests.antt =====
-- A replica of a primary, and a repinned alias.

use netix_backend.Prelude.{◌≡◌, refl, [], ◌∷◌, none, some, String, str_eq, if◌then◌else◌, ok}
use netix_backend.Prelude.Dict
use netix_backend.Prelude.Dict.{Dict, IsDistinct}
use netix_backend.Text.{upper, translate}
use netix_backend.Env.{Environ}
use netix_backend.Database.{
  Value, omit, literal, from_env, resolve, override, override_all, put, replica_of, picked, ordered,
}

-- Texts alone.
abbrev of_text : String → String
of_text s = s

abbrev of_dict : Dict String → String
of_dict d = "OPTIONS"

abbrev env : Environ
env name = if str_eq name "REPLICA_HOST" then some "r" else none

abbrev primary : Dict String
primary = ("ENGINE", "pg") ∷ ("HOST", "p") ∷ ("PORT", "1") ∷ ("TEST", "t") ∷ []

abbrev replica_host : Value String
replica_host = from_env (record { var = "REPLICA_HOST"; default = none; cast = none })

-- The factory, opened.
factory : Unit {0}
unfolding resolve override override_all put replica_of picked ordered upper translate Dict.get
    Dict.set Dict.pop Dict.update
factory = tt

made :
    replica_of of_text of_dict env primary replica_host (literal "2") omit []
    ≡ ok (("ENGINE", "pg") ∷ ("HOST", "r") ∷ ("PORT", "2") ∷ [])
unfolding factory
made = refl

primary-IsDistinct : IsDistinct primary
unfolding factory
primary-IsDistinct = (refl, (refl, (refl, (refl, tt))))
