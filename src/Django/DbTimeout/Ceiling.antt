-- ===== src/Django/DbTimeout/Ceiling.antt =====
-- What a session stands at behind the receiver, and which receiver stays connected.
use netix_backend.Prelude.{◌≡◌, refl, ap, ◌∙◌, true, List, Option, none, some, String, ok}
use netix_backend.Prelude.Int.{ℤ, pos}
use netix_backend.Env.{Environ}
use netix_backend.Django.DbTimeout.{
  is_migration_process, statement_timeout_ms, ceiling_of, apply_statement_timeout, Signal, install,
  received, create_connection, uninstall,
}

module _ (signal : Signal) where
  first_stays :
      (first later : Option ℤ) (uid : String) (s : signal.S)
      → signal.receiver s uid ≡ none
      → signal.receiver (install signal later uid (install signal first uid s).1).1 uid
        ≡ some (record { timeout_ms = first })
  unfolding install
  first_stays first later uid s free =
      let connected = signal.receiver-connect s uid (record { timeout_ms = first }) free in
      ap (λ x. signal.receiver x uid)
        (signal.connect_again (install signal first uid s).1 uid (record { timeout_ms = later })
          (record { timeout_ms = first }) connected)
      ∙ connected

  -- A new Postgres connection stands at the ceiling of the first install, whatever timeout its
  -- pooled session was left with, and though another install under the same uid came later.
  pub create_connection-install :
      (env : Environ) (argv : List String) (first later : Option ℤ) (uid : String) (s : signal.S)
      (ceiling left : ℤ)
      → signal.receiver s uid ≡ none
      → ceiling_of env argv first ≡ ok ceiling
      → create_connection signal env argv
          (install signal later uid (install signal first uid s).1).1
          uid
          (record { vendor = "postgresql"; statement_timeout = left })
        ≡ ok (record { vendor = "postgresql"; statement_timeout = ceiling })
  unfolding apply_statement_timeout
  create_connection-install env argv first later uid s ceiling left free e =
      ap
        (λ r.
          received signal env argv r (record { vendor = "postgresql"; statement_timeout = left }))
        (first_stays first later uid s free)
      ∙ rw e refl

  -- In a migration process that ceiling is 0, whatever the environment says.
  pub migration_unbounded :
      (env : Environ) (argv : List String)
      → is_migration_process argv ≡ true
      → ceiling_of env argv none ≡ ok (pos 0)
  unfolding statement_timeout_ms
  migration_unbounded env argv h = rw h refl

  -- An uninstall makes room for another receiver.
  pub install-uninstall :
      (first later : Option ℤ) (uid : String) (s : signal.S)
      → signal.receiver
          (install signal later uid (uninstall signal uid (install signal first uid s).1)).1
          uid
        ≡ some (record { timeout_ms = later })
  unfolding install uninstall
  install-uninstall first later uid s =
      signal.receiver-connect _ uid (record { timeout_ms = later })
        (signal.receiver-disconnect _ uid)
