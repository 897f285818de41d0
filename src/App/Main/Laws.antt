-- ===== src/App/Main/Laws.antt =====
-- The voyage service's program as a whole.
use maritime_test_lab.Prelude.{
  Bool, true, false, Option, none, some, ◌++◌, Result, ok, err, ◌≡◌, arith, ◌&&◌,
}
use maritime_test_lab.Config.{Environment}
use maritime_test_lab.Config.Voyage as VoyageConfig
use maritime_test_lab.Serde.{Serde, Error}
use maritime_test_lab.App.Trace.{Progress, begin, replay}
use maritime_test_lab.App.Tracing as Tracing
use maritime_test_lab.App.Tracing.{init, shutdown}
use maritime_test_lab.App.Postgres as Postgres
use maritime_test_lab.App.Postgres.{migrate, connect}
use maritime_test_lab.App.Serve as Serve
use maritime_test_lab.App.Serve.{grpc}
use maritime_test_lab.App.Voyage as Voyage
use maritime_test_lab.App.Laws.{ready, answers}
use maritime_test_lab.App.Main.{voyage, finished}

-- the tables were migrated, and the server had its services when it was started
abbrev pub served_at_end : Option Progress → Bool
served_at_end none = false
served_at_end (some p) = p.migrating_done && (p.application_registered && p.health_registered)

-- A run whose server was stopped has served.
connected_served_by :
    (tracing : Tracing.Env) (postgres : Postgres.Env) (serde : Result Error Serde)
    (producer_fails consumer_fails dial_fails : Bool) (server : Serve.Env) (s : Tracing.Shutdown)
    → (Voyage.connected
        (answers tracing postgres serde producer_fails consumer_fails dial_fails server)).1
      ≡ none
    → served_at_end (
        replay
          ((Voyage.connected
              (answers tracing postgres serde producer_fails consumer_fails dial_fails server)).0
            ++ shutdown s)
          (ready s))
      ≡ true
unfolding Voyage.connected Voyage.clients grpc replay
connected_served_by tracing postgres (err e) producer_fails consumer_fails dial_fails server s h =
    ground arith
connected_served_by tracing postgres (ok x) true consumer_fails dial_fails server s h = ground arith
connected_served_by tracing postgres (ok x) false true dial_fails server s h = ground arith
connected_served_by tracing postgres (ok x) false false true server s h = ground arith
connected_served_by tracing postgres (ok x) false false false server s h = ground arith

pub connected_served :
    (env : Voyage.Env) (s : Tracing.Shutdown)
    → (Voyage.connected env).1 ≡ none
    → served_at_end (replay ((Voyage.connected env).0 ++ shutdown s) (ready s)) ≡ true
connected_served env =
    connected_served_by env.tracing env.postgres env.new_serde env.producer_fails env.consumer_fails
      env.dial_fails env.server

-- A voyage program that exits without an error had a valid configuration, and behind its run, whose events were all
-- allowed, the tables are migrated and the server was started with its services registered.
pub voyage-served :
    (env : Voyage.Env) (getenv : Environment)
    → (voyage env getenv).1 ≡ finished
    → (VoyageConfig.validate (VoyageConfig.load_config getenv) ≡ none)
      × (served_at_end (replay (voyage env getenv).0 begin) ≡ true)
unfolding voyage Voyage.run init migrate connect replay
voyage-served env getenv h =
    ground (arith, connected_served env Tracing.no_op, connected_served env Tracing.provider)
