-- ===== src/Estimator.antt =====
-- services/estimator/adapters: the gRPC server and the consumer of voyage.created.
pub mod Consumer
pub mod Server
