-- ===== src/Tests/Services.antt =====
-- services/voyage/adapters/grpcserver and gateway/graph on small inputs.
use maritime_test_lab.Prelude.{◌-◌, true, false, some, [], ◌∷◌, Result, ok, err, ◌≡◌, refl}
use maritime_test_lab.Prelude.Int.{pos, half64}
use maritime_test_lab.Money.{Money, mul, overflow}
use maritime_test_lab.Estimate
use maritime_test_lab.Estimate.{estimate_cost}
use maritime_test_lab.Grpc.{Code, internal}
use maritime_test_lab.Voyage.{Voyage, Estimator, estimator_unavailable, validate}
use maritime_test_lab.Repository.{
  State, Env, OutboxEncoder, committed, empty, create, find, scan_voyage,
}
use maritime_test_lab.Repository.Creates.{Created}
use maritime_test_lab.VoyageService.EstimatorClient
use maritime_test_lab.VoyageService.EstimatorClient.{estimate-eq-estimate_cost, quoted}
use maritime_test_lab.Estimator.Server
use maritime_test_lab.VoyageService.Server.{
  CreateVoyageRequest, CreateVoyageResponse, requested, create_voyage, to_proto,
}
use maritime_test_lab.VoyageService.Server.Laws.{
  reads, create_voyage_degrades, create_voyage_unpriced,
}

abbrev calm : Env
calm = record {
  now = 5;
  begin_fails = false;
  query_fails = false;
  exec_fails = false;
  commit = committed;
  read_fails = false;
  carrier = ok [];
}

abbrev encode : OutboxEncoder
encode v = ok ("voyage.created", 0 ∷ [])

abbrev request : CreateVoyageRequest
request = record {
  client_request_id = "a";
  origin = "NLRTM";
  dest = "SGSIN";
  distance_nm = pos 10;
  fees_minor = pos 150;
}

abbrev stored : Voyage
stored = record {
  client_request_id = "a";
  origin = "NLRTM";
  dest = "SGSIN";
  distance_nm = pos 10;
  fees_minor = pos 150;
  version = pos 1;
  estimate_minor = pos 0;
}

abbrev offline : Estimator
offline v = err estimator_unavailable

abbrev hundred : Money
hundred = record { minor = pos 100; currency = "USD" }

-- a rate at which two miles overflow
abbrev steep : Money
steep = record { minor = pos (half64 - 1); currency = "USD" }

create_voyage_degrades_example :
    ((create_voyage encode offline calm request empty).0
      ≡ ok (record {
        voyage = to_proto stored;
        provisional_estimate_minor = pos 0;
        estimate_pending = true;
      }))
    × (reads "a" (create_voyage encode offline calm request empty).1 ≡ some stored)
unfolding validate create find scan_voyage
create_voyage_degrades_example =
    create_voyage_degrades encode offline calm request empty stored refl refl refl

abbrev unpriced : Result Code CreateVoyageResponse × State
unpriced =
    create_voyage encode (EstimatorClient.estimate (Server.estimate steep)) calm request empty

create_voyage_unpriced_example :
    (unpriced.0 ≡ err internal)
    × Created encode 5 (ok []) (requested request) empty unpriced.1
    × (reads "a" unpriced.1 ≡ some stored)
unfolding validate create find scan_voyage estimate_cost mul
create_voyage_unpriced_example =
    create_voyage_unpriced encode steep calm request empty stored (Estimate.money overflow) refl
      refl refl refl
