-- ===== src/App.antt =====
-- What services/voyage/app/app.go, services/estimator/app/app.go and gateway/app/app.go have in common: a run
-- of a program is what it did, in order, and the error that it returned. Which calls fail is a parameter.
pub mod Trace
pub mod Tracing
pub mod Postgres
pub mod Serve
pub mod Voyage
pub mod Estimator
pub mod Gateway
pub mod Main
pub mod Laws
use maritime_test_lab.Prelude.{
  Bool, true, false, Option, none, some, List, [], ◌∷◌, ◌++◌, Result, ok, err,
}
use maritime_test_lab.Serde

-- what is opened, and has to be closed
pub data Resource : Type 0 where
  exporter database pool producer consumer connection listener http_listener : Resource

-- what a program registers on its gRPC server
pub data Service : Type 0 where
  application health reflection : Service

-- what runs beside the program's main goroutine
pub data Routine : Type 0 where
  grpc_server shutdown_watcher poller estimate_consumer voyage_consumer lag_reporter
        metrics_server :
      Routine

pub data Event : Type 0 where
  opened : Resource → Event
  closed : Resource → Event
  started : Routine → Event
  registered : Service → Event
  propagator_set provider_set migrated status_serving graceful_stop : Event

-- which call failed
pub data Error : Type 0 where
  trace_exporter trace_resource : Error
  migrate_open migrate_dialect migrate_up migrate_close : Error
  connect_pool ping : Error
  serde : Serde.Error → Error
  kafka_producer kafka_consumer dial listen serve : Error

abbrev pub Run : Type 0
Run = List Event × Option Error

abbrev pub fail : Error → Run
fail e = ([], some e)

-- what comes before the rest of a run
abbrev pub after : List Event → Run → Run
after events (trace, e) = (events ++ trace, e)

-- the rest of a body that defers the close of what it has just opened
abbrev pub holding : Resource → Run → Run
holding r (trace, e) = (opened r ∷ trace ++ closed r ∷ [], e)

-- `if err != nil { return err }` after a call that has no other result
abbrev pub checked : Run → Run → Run
checked (trace, some e) rest = (trace, some e)
checked (trace, none) rest = after trace rest
