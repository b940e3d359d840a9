-- ===== src/Django/DbTimeout/Tests.antt =====
-- Connections behind two installs, over a signal that is a dictionary.
use netix_backend.Prelude.{◌≡◌, refl, true, [], ◌∷◌, Option, none, some, String, ok, ◌∙◌}
use netix_backend.Prelude.Int.{pos}
use netix_backend.Prelude.Dict.{Dict, get, set, pop, get-set, get-pop}
use netix_backend.Env.{Environ, lookup, env_int}
use netix_backend.Django.DbTimeout.{
  is_migration_process, statement_timeout_ms, Receiver, apply_statement_timeout, Signal, install,
  uninstall, create_connection,
}
use netix_backend.Django.DbTimeout.Ceiling.{create_connection-install}
use text.Mathlib.TextPositions.{eq_refl}

abbrev connect_once : Dict Receiver → String → Receiver → Option Receiver → Dict Receiver
connect_once s uid r none = set s uid r
connect_once s uid r (some old) = s

abbrev by_uid : Signal
by_uid = record {
  S = Dict Receiver;
  connect = λ s uid r. connect_once s uid r (get s uid);
  disconnect = pop;
  receiver = get;
  receiver-connect = λ s uid r h. rw h (get-set s uid uid r ∙ rw (eq_refl uid) refl);
  connect_again = λ s uid r old h. rw h refl;
  receiver-disconnect = λ s uid. get-pop s uid uid ∙ rw (eq_refl uid) refl;
}

abbrev env : Environ
env name = none

opened : Unit {0}
unfolding get set pop lookup env_int is_migration_process statement_timeout_ms
    apply_statement_timeout install uninstall
opened = tt

migrating : is_migration_process ("manage.py" ∷ "migrate" ∷ []) ≡ true
unfolding opened
migrating = refl

create_connection-install_example :
    create_connection by_uid env
      ("manage.py" ∷ "runserver" ∷ [])
      (install by_uid (some (pos 5)) "uid" (install by_uid none "uid" []).1).1
      "uid"
      (record { vendor = "postgresql"; statement_timeout = pos 99 })
    ≡ ok (record { vendor = "postgresql"; statement_timeout = pos 30000 })
unfolding opened
create_connection-install_example =
    create_connection-install by_uid env ("manage.py" ∷ "runserver" ∷ []) none (some (pos 5)) "uid"
      [] (pos 30000) (pos 99) refl refl
