-- ===== src/App/Voyage.antt =====
-- `Run` of services/voyage/app/app.go.
use maritime_test_lab.Prelude.{Bool, [], ◌∷◌, ◌++◌, Result, ok, err, if◌then◌else◌}
use maritime_test_lab.Serde
use maritime_test_lab.Config.Voyage.{Config}
use maritime_test_lab.App.{
  closed, started, pool, producer, consumer, connection, poller, estimate_consumer, lag_reporter,
  metrics_server, serde, kafka_producer, kafka_consumer, dial, Run, fail, after, holding, checked,
}
use maritime_test_lab.App.Tracing as Tracing
use maritime_test_lab.App.Tracing.{traced, init}
use maritime_test_lab.App.Postgres as Postgres
use maritime_test_lab.App.Postgres.{migrate, connect}
use maritime_test_lab.App.Serve as Serve
use maritime_test_lab.App.Serve.{HttpEnd, grpc, http}

-- what each call of `Run` answers
pub record Env : Type 0 where
  pub tracing : Tracing.Env
  pub postgres : Postgres.Env
  pub new_serde : Result Serde.Error Serde.Serde
  pub producer_fails : Bool
  pub consumer_fails : Bool
  pub dial_fails : Bool
  pub server : Serve.Env

-- the goroutines, and the server
abbrev pub served : Env → Run
served env =
    after
      (started poller
        ∷ started estimate_consumer
        ∷ started lag_reporter
        ∷ started metrics_server
        ∷ [])
      (grpc env.server)

-- `holding` for the pool, which `Connect` has opened
abbrev pub closing_pool : Run → Run
closing_pool (trace, e) = (trace ++ closed pool ∷ [], e)

unfoldable pub clients : Env → Run
unfolding grpc
clients env =
    if env.producer_fails
    then fail kafka_producer
    else holding producer (
        if env.consumer_fails
        then fail kafka_consumer
        else holding consumer
            (if env.dial_fails then fail dial else holding connection (served env)))

abbrev pub with_serde : Result Serde.Error Serde.Serde → Run → Run
with_serde (err e) rest = fail (serde e)
with_serde (ok s) rest = rest

-- what follows `Connect`
unfoldable pub connected : Env → Run
unfolding clients
connected env = closing_pool (with_serde env.new_serde (clients env))

unfoldable pub run : Env → Config → Run
unfolding init migrate connect connected
run env cfg =
    traced (init env.tracing cfg.otlp_endpoint)
      (checked (migrate env.postgres) (checked (connect env.postgres) (connected env)))

-- `serveMetrics`: the error is only logged
unfoldable pub serve_metrics : HttpEnd → Run
unfolding http
serve_metrics end = http end
