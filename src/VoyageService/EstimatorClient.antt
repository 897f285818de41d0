-- ===== src/VoyageService/EstimatorClient.antt =====
-- services/voyage/adapters/estimatorclient/client.go: the Estimator port over gRPC. The transport is a
-- parameter: a function from requests to responses or status codes.
use maritime_test_lab.Prelude.{Result, ok, err, ◌≡◌, refl}
use maritime_test_lab.Money.{Money, from_usd}
use maritime_test_lab.Estimate
use maritime_test_lab.Estimate.{estimate_cost}
use maritime_test_lab.Grpc.{Code, unavailable, invalid_argument, not_found, internal, other}
use maritime_test_lab.Voyage.{Voyage, Error, estimator_unavailable, infra}
use maritime_test_lab.Estimator.Server.{EstimateRequest, EstimateResponse}
use maritime_test_lab.Estimator.Server

abbrev pub Client : Type 0
Client = EstimateRequest → Result Code EstimateResponse

-- the error that a status code becomes
abbrev pub of_code : Code → Error
of_code unavailable = estimator_unavailable
of_code invalid_argument = infra
of_code not_found = infra
of_code internal = infra
of_code other = infra

abbrev pub received : Result Code EstimateResponse → Result Error Money
received (err code) = err (of_code code)
received (ok resp) = ok (record { minor = resp.amount_minor; currency = resp.currency })

unfoldable pub estimate : Client → Voyage → Result Error Money
estimate client v = received (
    client (record {
      client_request_id = v.client_request_id;
      distance_nm = v.distance_nm;
      fees_minor = v.fees_minor;
    }))

abbrev pub quoted : Result Estimate.Error Money → Result Error Money
quoted (ok cost) = ok cost
quoted (err e) = err infra

received-answer : (r : Result Estimate.Error Money) → received (Server.answer r) ≡ quoted r
received-answer (ok cost) = refl
received-answer (err e) = refl

-- Over a transport that reaches the estimator, the quote is the estimator's price of the voyage's distance and fees at its
-- rate, and a refusal to price is an error other than estimator-unavailable.
pub estimate-eq-estimate_cost :
    (rate : Money) (v : Voyage)
    → estimate (Server.estimate rate) v
      ≡ quoted (estimate_cost v.distance_nm (from_usd v.fees_minor) rate)
unfolding estimate Server.estimate
estimate-eq-estimate_cost rate v =
    received-answer (estimate_cost v.distance_nm (from_usd v.fees_minor) rate)
