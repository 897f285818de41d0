-- ===== src/VoyageService.antt =====
-- services/voyage/adapters: the gRPC server, the client of the estimator, and the consumer of
-- estimate.ready.
pub mod LagReporter
pub mod EstimatorClient
pub mod Server
pub mod Consumer
