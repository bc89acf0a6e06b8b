-- ===== src/Startup/Migrations.antt =====
-- PGStore.go: the struct, Setup and NewPGStore. The logger of the migrations is left out.
use evesso.Prelude.{ℕ, ◌≡◌, Bool, true, String, Option, none, some}
use evesso.Prelude.{if◌then◌else◌, false}
use evesso.Exec.{Error, no_change, Done, Result, ok, err, Exec, pure, lift, ◌>>=◌}

-- pgxm.Config, with the timeout in seconds
pub record InstanceConfig : Type 0 where
  pub migrations_table : String
  pub schema_name : String
  pub database_name : String
  pub statement_timeout : ℕ

-- iofs over the embedded files, pgxpool, and golang-migrate. `is_current` says of a state that the
-- database of an instance has the latest of the versions of a source.
pub record Postgres : Type 1 where
  pub State : Type 0
  pub Connection : Type 0
  pub Driver : Type 0
  pub open_driver : Result Driver
  pub Config : Type 0
  pub parse_config : String → Result Config
  pub database : Config → String
  pub Pool : Type 0
  pub new_pool : Config → Exec State Pool
  pub Instance : Type 0
  pub with_instance : Config → InstanceConfig → Exec State Instance
  pub Migrate : Type 0
  pub new_migrate : Driver → Instance → Exec State Migrate
  pub is_current : Migrate → State → Bool
  pub up : Migrate → Exec State Done
  -- Up applies every version that is left. With none left it is ErrNoChange and applies nothing.
  pub up-ok : (m : Migrate) (s : State) → (up m s).0 ≡ ok tt → is_current m (up m s).1 ≡ true
  pub up-no_change :
      (m : Migrate) (s : State) → (up m s).0 ≡ err no_change → is_current m (up m s).1 ≡ true

-- `errors.Is(err, migrate.ErrNoChange)`
abbrev pub is_no_change : Error → Bool
is_no_change no_change = true
is_no_change _ = false

module _ (p : Postgres) where
  open p use {
    State, Connection, Driver, open_driver, Config, parse_config, database, Pool, new_pool,
    Instance, with_instance, Migrate, new_migrate, is_current, up, up-ok, up-no_change,
  }

  -- PGStore
  pub record PgStore : Type 0 where
    pub schema : String
    pub pool : Option Pool
    pub lock : Option Connection
    pub migrations : Option Migrate

  abbrev pub instance_config : Config → InstanceConfig
  instance_config config = record {
    migrations_table = "sso_migrations";
    schema_name = "evesso";
    database_name = database config;
    statement_timeout = 60;
  }

  -- The call of Up, of which ErrNoChange is no failure
  unfoldable pub migrate : Migrate → Exec State Done
  migrate m s =
      let (r, s') = up m s in
      elim r [ ok d ↦ (ok d, s') | err e ↦ if is_no_change e then (ok tt, s') else (err e, s') ]

  unfoldable pub new_pg_store : String → Exec State PgStore
  unfolding migrate
  new_pg_store dsn = do
    driver ← lift open_driver
    config ← lift (parse_config dsn)
    pool ← new_pool config
    instance_ ← with_instance config (instance_config config)
    migrations ← new_migrate driver instance_
    _ ← migrate migrations
    pure (record { schema = ""; pool = some pool; lock = none; migrations = some migrations })

  -- PGStore.Setup: every field is that of the new store, or none has changed.
  unfoldable pub setup : String → PgStore → State → Result Done × PgStore × State
  unfolding new_pg_store
  setup dsn x s =
      let (r, s') = new_pg_store dsn s in
      elim r [
        | err e ↦ (err e, x, s')
        | ok ds ↦ (
          ok tt,
          record x {
            schema = ds.schema;
            pool = ds.pool;
            lock = ds.lock;
            migrations = ds.migrations;
          },
          s',
        )
      ]
