-- ===== src/Grpc.antt =====
-- The status codes of gRPC that the sources give or test; `other` is any code besides.
pub data Code : Type 0 where
  invalid_argument not_found internal unavailable other : Code
