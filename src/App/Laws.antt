-- ===== src/App/Laws.antt =====
-- The runs of the three programs, whatever fails, against the rules of Trace.
use maritime_test_lab.Prelude.{
  String, Bool, true, false, some, List, [], ◌∷◌, ◌++◌, Result, ok, err, if◌then◌else◌, str_eq, ◌≡◌,
  arith, ◌&&◌, not,
}
use maritime_test_lab.App.{Resource, exporter, pool}
use maritime_test_lab.App.Trace.{Progress, begin, replay, held_at_end}
use maritime_test_lab.App.Tracing as Tracing
use maritime_test_lab.App.Tracing.{init, shutdown}
use maritime_test_lab.App.Postgres as Postgres
use maritime_test_lab.App.Postgres.{migrate, connect}
use maritime_test_lab.App.Serve as Serve
use maritime_test_lab.App.Serve.{grpc, http}
use maritime_test_lab.App.Voyage as Voyage
use maritime_test_lab.App.Estimator as Estimator
use maritime_test_lab.App.Gateway as Gateway
use maritime_test_lab.Config.Voyage as VoyageConfig
use maritime_test_lab.Config.Estimator as EstimatorConfig
use maritime_test_lab.Config.Gateway as GatewayConfig
use maritime_test_lab.Serde.{Serde, Error}

-- an exporter that was made before its resource could not be
unfoldable pub leaked : Tracing.Env → String → List Resource
leaked env endpoint =
    if not (str_eq endpoint "") && (not env.exporter_fails && env.resource_fails)
    then exporter ∷ []
    else []

abbrev held_by : Tracing.Shutdown → List Resource
held_by Tracing.no_op = []
held_by Tracing.provider = exporter ∷ []

-- a voyage service with its pool and its migrated tables
abbrev pub ready : Tracing.Shutdown → Progress
ready s = record begin { held = pool ∷ held_by s; propagating = true; migrating_done = true }

abbrev pub answers :
    Tracing.Env → Postgres.Env → Result Error Serde → Bool → Bool → Bool → Serve.Env → Voyage.Env
answers tracing postgres serde producer_fails consumer_fails dial_fails server = record {
  tracing = tracing;
  postgres = postgres;
  new_serde = serde;
  producer_fails = producer_fails;
  consumer_fails = consumer_fails;
  dial_fails = dial_fails;
  server = server;
}

-- what follows the pool, by what each call answers
connected_by :
    (tracing : Tracing.Env) (postgres : Postgres.Env) (serde : Result Error Serde)
    (producer_fails consumer_fails dial_fails : Bool) (server : Serve.Env) (s : Tracing.Shutdown)
    → held_at_end (
        replay
          ((Voyage.connected
              (answers tracing postgres serde producer_fails consumer_fails dial_fails server)).0
            ++ shutdown s)
          (ready s))
      ≡ some []
unfolding Voyage.connected Voyage.clients grpc replay
connected_by tracing postgres (err e) producer_fails consumer_fails dial_fails server s =
    ground arith
connected_by tracing postgres (ok x) true consumer_fails dial_fails server s = ground arith
connected_by tracing postgres (ok x) false true dial_fails server s = ground arith
connected_by tracing postgres (ok x) false false true server s = ground arith
connected_by tracing postgres (ok x) false false false server s = ground arith

connected-held :
    (env : Voyage.Env) (s : Tracing.Shutdown)
    → held_at_end (replay ((Voyage.connected env).0 ++ shutdown s) (ready s)) ≡ some []
connected-held env =
    connected_by env.tracing env.postgres env.new_serde env.producer_fails env.consumer_fails
      env.dial_fails env.server

-- For every failure of a call of the voyage service's `Run`, each event of the run is allowed (the migrations precede the pool,
-- services are registered before the server starts, a goroutine starts with what it uses open, a close is that of the latest
-- opened), and at its end nothing is open, but for an exporter that was made before its resource could not be.
pub voyage_run-held :
    (env : Voyage.Env) (cfg : VoyageConfig.Config)
    → held_at_end (replay (Voyage.run env cfg).0 begin)
      ≡ some (leaked env.tracing cfg.otlp_endpoint)
unfolding Voyage.run init migrate connect leaked replay
voyage_run-held env cfg =
    ground (arith, connected-held env Tracing.no_op, connected-held env Tracing.provider)

pub estimator_run-held :
    (env : Estimator.Env) (cfg : EstimatorConfig.Config)
    → held_at_end (replay (Estimator.run env cfg).0 begin)
      ≡ some (leaked env.tracing cfg.otlp_endpoint)
unfolding Estimator.run init grpc leaked replay
estimator_run-held env cfg = ground arith

pub gateway_run-held :
    (env : Gateway.Env) (cfg : GatewayConfig.Config)
    → held_at_end (replay (Gateway.run env cfg).0 begin)
      ≡ some (leaked env.tracing cfg.otlp_endpoint)
unfolding Gateway.run init http leaked replay
gateway_run-held env cfg = ground arith
