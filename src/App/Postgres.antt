-- ===== src/App/Postgres.antt =====
-- services/voyage/adapters/postgres/migrate.go and connect.go, over what database/sql, goose and pgxpool answer.
use maritime_test_lab.Prelude.{Bool, true, false, none, some, [], ◌∷◌, if◌then◌else◌}
use maritime_test_lab.App.{
  opened, closed, migrated, database, pool, migrate_open, migrate_dialect, migrate_up,
  migrate_close, connect_pool, ping, Run, fail, holding,
}

pub record Env : Type 0 where
  pub open_fails : Bool
  pub dialect_fails : Bool
  pub up_fails : Bool
  pub close_fails : Bool
  pub pool_fails : Bool
  pub ping_fails : Bool

-- the deferred function: the error of the close counts only where nothing failed before
abbrev close_error : Bool → Run → Run
close_error true (trace, none) = (trace, some migrate_close)
close_error true (trace, some e) = (trace, some e)
close_error false r = r

-- `Migrate`: between the open and the close of its connection
unfoldable pub migrate : Env → Run
migrate env =
    if env.open_fails
    then fail migrate_open
    else close_error env.close_fails (
        holding database (
          if env.dialect_fails
          then fail migrate_dialect
          else if env.up_fails
          then fail migrate_up
          else (migrated ∷ [], none)))

-- `Connect`: a pool that does not answer a ping is closed; with no error the pool is the caller's.
unfoldable pub connect : Env → Run
connect env =
    if env.pool_fails
    then fail connect_pool
    else if env.ping_fails
    then (opened pool ∷ closed pool ∷ [], some ping)
    else (opened pool ∷ [], none)
