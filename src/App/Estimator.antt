-- ===== src/App/Estimator.antt =====
-- `Run` of services/estimator/app/app.go.
use maritime_test_lab.Prelude.{Bool, [], ◌∷◌, Result, if◌then◌else◌}
use maritime_test_lab.Serde
use maritime_test_lab.Config.Estimator.{Config}
use maritime_test_lab.App.{
  started, consumer, voyage_consumer, kafka_consumer, Run, fail, after, holding,
}
use maritime_test_lab.App.Tracing as Tracing
use maritime_test_lab.App.Tracing.{traced, init}
use maritime_test_lab.App.Serve as Serve
use maritime_test_lab.App.Serve.{grpc}
use maritime_test_lab.App.Voyage.{with_serde}

pub record Env : Type 0 where
  pub tracing : Tracing.Env
  pub new_serde : Result Serde.Error Serde.Serde
  pub consumer_fails : Bool
  pub server : Serve.Env

unfoldable pub run : Env → Config → Run
unfolding init grpc
run env cfg = traced (init env.tracing cfg.otlp_endpoint) (
    with_serde env.new_serde (
      if env.consumer_fails
      then fail kafka_consumer
      else holding consumer (after (started voyage_consumer ∷ []) (grpc env.server))))
