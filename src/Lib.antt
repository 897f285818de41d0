-- ===== src/Lib.antt =====
-- A verification library for maritime-test-lab: a voyage service, an estimator service, a GraphQL gateway and
-- an offline client for vessels. A vessel queues operations on disk and sends them to the gateway, which calls
-- the voyage service. That stores a voyage and its event in one transaction; a poller relays the event to Kafka;
-- the estimator prices it and publishes estimate.ready; the voyage service applies the price.
--
-- The files, and the code that each models:
-- - Prelude: Go's integers as integers with their wrap-around, results, texts and Boolean tests.
-- - Money: internal/money/money.go. Estimate: services/estimator/domain/estimate.go.
-- - Voyage: services/voyage/domain. `infra` stands for every error that is no sentinel of the domain.
-- - Repository: services/voyage/adapters/postgres/repository.go and the tables of migrations/*.sql. A table is
--   a list of rows, a statement an atomic step, and a transaction, or a statement that commits by itself, takes effect at its
--   commit, which may also take effect and lose its answer. `Env` holds the clock and the calls that fail.
--   Repository.Spec is the map from keys to voyages that the tables implement (services/voyage/domain/ports.go).
-- - Outbox: services/voyage/adapters/kafka/poller.go, over the outbox table and the broker's log.
--   Outbox.Poller is its loop, Outbox.TraceContext the trace of a request in a row of the outbox.
-- - Kafka: what the sources use of the Kafka client. The answers to produces and the effect of a commit are
--   parameters; `Commits` states what a commit does as the broker documents it.
-- - Topic: schemas/schemas.go. Serde: internal/avroserde/serde.go. Events: gen/avro and both events.go.
-- - Consumer: the loop `Run` that the consumers of both services share.
-- - Estimator.Consumer and Estimator.Server: services/estimator/adapters/kafka/consumer.go and grpcserver/server.go.
-- - VoyageService.Server, .Consumer, .EstimatorClient: services/voyage/adapters/grpcserver/server.go,
--   kafka/estimate_consumer.go and estimatorclient/client.go. Grpc has the status codes they tell apart.
-- - Onboard: clients/onboard-sync. Operation and Retry are domain/operation.go, merge.go and retry.go; Queue and
--   Store are adapters/jsonlstore/store.go, Syncer is domain/syncer.go, Transport is
--   adapters/graphqltransport/transport.go. The store has the map in memory, the bytes of the file and of the
--   temporary file beside it; `Disk` holds what the disk answers to one call, and Store.Buffer is the
--   bufio.Writer that compact writes through. Json is the line that
--   json.Marshal writes; what json.Unmarshal reads is a parameter. Port is domain/ports.go
--   with its laws, which the JSONL store fills in Port.Jsonl. Client is client.go.
--   Interleaving has two goroutines, one in SyncOnce and one in Enqueue, that take turns between the calls of the store.
-- - Gateway: gateway/graph/schema.resolvers.go and mapping.go. Gateway.Schema is the part of gen/graphql/generated.go
--   that reads the inputs, runs the fields of a mutation or a query and builds the objects of its response; gqlgen's
--   runtime is a parameter, with what it documents as the hypotheses `Resolves`, `Plain` and `Answers`.
-- - Config: internal/env/env.go, and app/config.go of services/estimator, services/voyage and gateway.
-- - RepoPath: internal/repopath/repopath.go.
-- - EventReg: internal/eventreg/eventreg.go. MetricNames: internal/metricnames/metricnames.go.
-- - VoyageService.LagReporter: services/voyage/adapters/kafka/lagreporter.go.
-- - App: the programs. App.Tracing is internal/tracing/tracing.go, App.Postgres migrate.go and connect.go of
--   services/voyage/adapters/postgres, App.Serve internal/serve/serve.go, App.Voyage, App.Estimator and
--   App.Gateway the Run of services/voyage/app, services/estimator/app and gateway/app, App.Main the main
--   functions. A run is the list of what was opened, started and closed, with the error that was returned;
--   App.Trace tells from the list alone which of it is allowed.
-- - System: the parts that services/voyage/app/app.go and services/estimator/app/app.go start, as steps over one
--   database and one broker, in any order, with any failure and redelivery of a call. System.Acknowledged and
--   System.Sync put the device and the gateway before them: `mutation` runs the resolver of an operation's
--   kind; System.Posted is the post of an operation as the schema of the gateway reads it. System.Stale follows the
--   estimate of a row through the updates of its voyage.
-- - Tests: runs on small inputs, and each theorem at an input that meets its conditions.
--
-- Every loop of the sources that ends is a recursion on a list, so there is no fuel. The loops that run for
-- the life of a process take the list of what happens until the context is cancelled (Outbox.Poller.run,
-- VoyageService.LagReporter.report_lag), or are modelled by one round (Consumer.poll).
--
-- Not modelled: the options that the app packages hand to their clients, the routes of the HTTP servers,
-- the text of log lines and of errors (of an error the model has the sentinel, the status code or the call
-- that failed), the buckets of the histogram, the rest of gen/graphql/generated.go (complexity, deferred results, introspection),
-- the gRPC stubs, and the test fixtures.
pub mod App
pub mod EventReg
pub mod MetricNames
pub mod Prelude
pub mod Money
pub mod Estimate
pub mod Voyage
pub mod Repository
pub mod Topic
pub mod Kafka
pub mod Serde
pub mod Events
pub mod Consumer
pub mod Grpc
pub mod Estimator
pub mod VoyageService
pub mod Outbox
pub mod Tests
pub mod Onboard
pub mod Gateway
pub mod System
pub mod Config
pub mod RepoPath
