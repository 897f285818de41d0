-- ===== src/Gateway.antt =====
-- gateway/graph: the GraphQL resolvers in front of the voyage service.
pub mod Resolvers
pub mod Laws
pub mod Answers
pub mod Schema
