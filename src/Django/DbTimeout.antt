-- ===== src/Django/DbTimeout.antt =====
-- netix_backend/django/db_timeout.py: the statement timeout of each new connection.
mod Ceiling
mod Tests
use netix_backend.Prelude.{
  ◌≡◌, Bool, true, false, List, [], ◌∷◌, Option, none, some, String, str_eq, contains,
  if◌then◌else◌, Result, ok, ◌>>=◌,
}
use netix_backend.Prelude.Int.{ℤ, pos}
use netix_backend.Env.{Environ, ConfigurationError, env_int}

abbrev pub db_statement_timeout_ms : ℤ
db_statement_timeout_ms = pos 30000

abbrev pub statement_timeout_env : String
statement_timeout_env = "DB_STATEMENT_TIMEOUT_MS"

abbrev pub default_dispatch_uid : String
default_dispatch_uid = "netix_backend.django.db_timeout"

abbrev pub migration_commands : List String
migration_commands =
    "migrate" ∷ "makemigrations" ∷ "sqlmigrate" ∷ "showmigrations" ∷ "squashmigrations" ∷ []

-- sys.argv[1] in MIGRATION_COMMANDS
unfoldable pub is_migration_process : List String → Bool
is_migration_process (program ∷ command ∷ arguments) = contains migration_commands command
is_migration_process _ = false

unfoldable pub statement_timeout_ms : Environ → List String → ℤ → Result ConfigurationError ℤ
statement_timeout_ms env argv default =
    if is_migration_process argv then ok (pos 0) else env_int env statement_timeout_env default

-- A connection, with the timeout that its session stands at.
pub record Connection : Type 0 where
  pub vendor : String
  pub statement_timeout : ℤ

-- A receiver of `connection_created`: `none` asks for the ceiling of the process.
pub record Receiver : Type 0 where
  pub timeout_ms : Option ℤ

abbrev pub ceiling_of : Environ → List String → Option ℤ → Result ConfigurationError ℤ
ceiling_of env argv none = statement_timeout_ms env argv db_statement_timeout_ms
ceiling_of env argv (some timeout_ms) = ok timeout_ms

-- `SET statement_timeout`
unfoldable pub apply_statement_timeout :
    Environ → List String → Receiver → Connection → Result ConfigurationError Connection
apply_statement_timeout env argv receiver connection =
    if str_eq connection.vendor "postgresql"
    then (ceiling_of env argv receiver.timeout_ms >>= λ ceiling.
        ok (record connection { statement_timeout = ceiling }))
    else ok connection

-- Django's signal: its receivers by their dispatch_uid, of which each is connected once.
pub record Signal : Type 1 where
  pub S : Type 0
  pub connect : S → String → Receiver → S
  pub disconnect : S → String → S
  pub receiver : S → String → Option Receiver
  pub receiver-connect :
      (s : S) (uid : String) (r : Receiver)
      → receiver s uid ≡ none
      → receiver (connect s uid r) uid ≡ some r
  pub connect_again :
      (s : S) (uid : String) (r old : Receiver) → receiver s uid ≡ some old → connect s uid r ≡ s
  pub receiver-disconnect : (s : S) (uid : String) → receiver (disconnect s uid) uid ≡ none

module _ (signal : Signal) where
  -- The receiver that `install` returns is the one that it tries to connect.
  unfoldable pub install : Option ℤ → String → signal.S → Receiver × signal.S
  install timeout_ms dispatch_uid s =
      let receiver : Receiver = record { timeout_ms = timeout_ms } in
      (receiver, signal.connect s dispatch_uid receiver)

  unfoldable pub uninstall : String → signal.S → signal.S
  uninstall dispatch_uid s = signal.disconnect s dispatch_uid

  abbrev pub received :
      Environ → List String → Option Receiver → Connection → Result ConfigurationError Connection
  received env argv none connection = ok connection
  received env argv (some receiver) connection =
      apply_statement_timeout env argv receiver connection

  -- A connection is created: the receiver under the uid, if there is one, gets it.
  abbrev pub create_connection :
      Environ → List String → signal.S → String → Connection → Result ConfigurationError Connection
  create_connection env argv s dispatch_uid = received env argv (signal.receiver s dispatch_uid)
