-- ===== src/Tests/App.antt =====
-- The programs' runs, and what their start builds, on small inputs.
use maritime_test_lab.Prelude.{
  ℕ, String, true, false, none, some, [], ◌∷◌, Result, ok, ◌≡◌, ◌≢◌, refl, if◌then◌else◌, str_eq,
}
use maritime_test_lab.Prelude.Int.{pos}
use maritime_test_lab.Config.{Environment}
use maritime_test_lab.Config.Voyage as VoyageConfig
use maritime_test_lab.Config
use maritime_test_lab.Serde.{Registration, Serde, Error, new, register_all}
use maritime_test_lab.Events.{VoyageCreated, EstimateReady}
use maritime_test_lab.MetricNames.{init_metrics, register}
use maritime_test_lab.EventReg.{Schemas, all}
use maritime_test_lab.Serde.{Codec}
use maritime_test_lab.VoyageService.LagReporter.{GroupLag}
use maritime_test_lab.App.{
  opened, closed, propagator_set, exporter, database, trace_resource, migrate_up,
}
use maritime_test_lab.App.Tracing.{init}
use maritime_test_lab.App.Postgres as Postgres
use maritime_test_lab.App.Postgres.{migrate, connect}
use maritime_test_lab.App.Serve as Serve
use maritime_test_lab.App.Serve.{grpc}
use maritime_test_lab.App.Voyage as Voyage
use maritime_test_lab.App.Trace.{begin, replay, held_at_end}
use maritime_test_lab.App.Laws.{leaked, voyage_run-held}
use maritime_test_lab.App.Main.{voyage, finished}

-- no two metrics of the voyage service share a name
metrics_registered : init_metrics [] ≢ none
unfolding init_metrics register
metrics_registered e = cc

abbrev database_ok : Postgres.Env
database_ok = record {
  open_fails = false;
  dialect_fails = false;
  up_fails = false;
  close_fails = false;
  pool_fails = false;
  ping_fails = false;
}

-- a migration that fails, and whose connection then fails to close
failed_migration :
    migrate (record database_ok { up_fails = true; close_fails = true })
    ≡ (opened database ∷ closed database ∷ [], some migrate_up)
unfolding migrate
failed_migration = refl

abbrev healthy : Voyage.Env
healthy = record {
  tracing = record { exporter_fails = false; resource_fails = false };
  postgres = database_ok;
  new_serde = ok [];
  producer_fails = false;
  consumer_fails = false;
  dial_fails = false;
  server = record { listen_fails = false; end = Serve.cancelled };
}

abbrev traced : VoyageConfig.Config
traced = record {
  grpc_addr = ":9000";
  metrics_addr = ":9100";
  db_dsn = "postgres://db";
  estimator_addr = "estimator:9001";
  kafka_brokers = "kafka:9092" ∷ [];
  schema_registry_url = "http://registry";
  otlp_endpoint = "collector:4317";
}

-- the resource of the traces fails behind its exporter
abbrev untraceable : Voyage.Env
untraceable = record healthy { tracing = record { exporter_fails = false; resource_fails = true } }

exporter_leaks :
    Voyage.run untraceable traced ≡ (propagator_set ∷ opened exporter ∷ [], some trace_resource)
unfolding Voyage.run init
exporter_leaks = refl

voyage_run-held_example : held_at_end (replay (Voyage.run healthy traced).0 begin) ≡ some []
unfolding leaked
voyage_run-held_example = voyage_run-held healthy traced

abbrev getenv : Environment
getenv key = ""

exits : (voyage healthy getenv).1 ≡ finished
unfolding voyage Voyage.run init migrate connect Voyage.connected Voyage.clients grpc
    VoyageConfig.load_config VoyageConfig.validate Config.or Config.list Config.split_commas
    Config.keep_items Config.trim_space
exits = refl

abbrev create_schema : Registration → Result Error ℕ
create_schema r = if str_eq r.subject "voyage.created-value" then ok 1 else ok 2

abbrev parse : String → Result Error (Unit {0})
parse text = ok tt

abbrev schemas : Schemas
schemas = record { voyage_created = "{}"; estimate_ready = "{}" }

abbrev serde : Serde
serde = ("avro.VoyageCreated", 1) ∷ ("avro.EstimateReady", 2) ∷ []

abbrev voyages : Codec VoyageCreated
voyages = record { name = "avro.VoyageCreated"; marshal = λ v. some []; unmarshal = λ bytes. none }

abbrev estimates : Codec EstimateReady
estimates = record {
  name = "avro.EstimateReady";
  marshal = λ e. some [];
  unmarshal = λ bytes. none;
}

built : new (ok create_schema) parse (all schemas) ≡ ok serde
unfolding new register_all all
built = refl

abbrev lag : GroupLag
lag = record { describe_fails = false; fetch_fails = false; total = pos 7 }
