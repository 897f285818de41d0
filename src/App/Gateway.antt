-- ===== src/App/Gateway.antt =====
-- `Run` of gateway/app/app.go.
use maritime_test_lab.Prelude.{Bool, if◌then◌else◌}
use maritime_test_lab.Config.Gateway.{Config}
use maritime_test_lab.App.{connection, dial, Run, fail, holding}
use maritime_test_lab.App.Tracing as Tracing
use maritime_test_lab.App.Tracing.{traced, init}
use maritime_test_lab.App.Serve.{HttpEnd, http}

pub record Env : Type 0 where
  pub tracing : Tracing.Env
  pub dial_fails : Bool
  pub server : HttpEnd

unfoldable pub run : Env → Config → Run
unfolding init http
run env cfg =
    traced (init env.tracing cfg.otlp_endpoint)
      (if env.dial_fails then fail dial else holding connection (http env.server))
