-- ===== src/App/Main.antt =====
-- The programs: services/voyage/main.go, services/estimator/main.go, gateway/main.go and services/voyage/cmd/migrate/main.go.
pub mod Laws
use maritime_test_lab.Prelude.{Option, none, some, List, [], ◌∷◌, Result, ok, err}
use maritime_test_lab.Config.{Environment, or}
use maritime_test_lab.Config.Voyage as VoyageConfig
use maritime_test_lab.Config.Estimator as EstimatorConfig
use maritime_test_lab.Config.Gateway as GatewayConfig
use maritime_test_lab.App.{Event, Error, Run}
use maritime_test_lab.App.Postgres as Postgres
use maritime_test_lab.App.Postgres.{migrate}
use maritime_test_lab.App.Voyage as VoyageApp
use maritime_test_lab.App.Estimator as EstimatorApp
use maritime_test_lab.App.Gateway as GatewayApp

-- How a program ends: `log.Fatalf` of its configuration's error or of its run's, or the return of `main`.
pub data Exit (E : Type 0) : Type 0 where
  bad_config : E → Exit E
  failed : Error → Exit E
  finished : Exit E

abbrev pub exit : {E : Type 0} → Run → List Event × Exit E
exit (trace, some e) = (trace, failed e)
exit (trace, none) = (trace, finished)

-- `Validate` before `Run`
abbrev pub validated : {E : Type 0} → Option E → Run → List Event × Exit E
validated (some e) r = ([], bad_config e)
validated none r = exit r

unfoldable pub voyage : VoyageApp.Env → Environment → List Event × Exit VoyageConfig.Error
unfolding VoyageApp.run
voyage env getenv =
    let cfg = VoyageConfig.load_config getenv in
    validated (VoyageConfig.validate cfg) (VoyageApp.run env cfg)

unfoldable pub estimator : EstimatorApp.Env → Environment → List Event × Exit EstimatorConfig.Error
unfolding EstimatorApp.run
estimator env getenv = elim (EstimatorConfig.load_config getenv) [
  | err e ↦ ([], bad_config e)
  | ok cfg ↦ validated (EstimatorConfig.validate cfg) (EstimatorApp.run env cfg)
]

unfoldable pub gateway : GatewayApp.Env → Environment → List Event × Exit GatewayConfig.Error
unfolding GatewayApp.run
gateway env getenv =
    let cfg = GatewayConfig.load_config getenv in
    validated (GatewayConfig.validate cfg) (GatewayApp.run env cfg)

-- the command that only migrates; its connection string is the variable's, or the default
unfoldable pub migrate_command : Postgres.Env → List Event × Exit (Unit {0})
unfolding migrate
migrate_command env = exit (migrate env)
