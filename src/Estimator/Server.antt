-- ===== src/Estimator/Server.antt =====
-- services/estimator/adapters/grpcserver/server.go, and the messages of gen/proto/estimator/v1.
use maritime_test_lab.Prelude.{String, Result, ok, err}
use maritime_test_lab.Prelude.Int.{ℤ}
use maritime_test_lab.Money.{Money, from_usd}
use maritime_test_lab.Estimate
use maritime_test_lab.Estimate.{estimate_cost}
use maritime_test_lab.Grpc.{Code, invalid_argument}

pub record EstimateRequest : Type 0 where
  pub client_request_id : String
  pub distance_nm : ℤ
  pub fees_minor : ℤ

pub record EstimateResponse : Type 0 where
  pub amount_minor : ℤ
  pub currency : String

-- a price, or the boundary error that a refusal to price becomes
abbrev pub answer : Result Estimate.Error Money → Result Code EstimateResponse
answer (ok cost) = ok (record { amount_minor = cost.minor; currency = cost.currency })
answer (err e) = err invalid_argument

unfoldable pub estimate : Money → EstimateRequest → Result Code EstimateResponse
estimate rate_per_nm req =
    answer (estimate_cost req.distance_nm (from_usd req.fees_minor) rate_per_nm)
