-- ===== src/Events.antt =====
-- gen/avro, services/voyage/adapters/kafka/events.go and services/estimator/adapters/kafka/events.go: the
-- two events and how they are built.
use maritime_test_lab.Prelude.{ℕ, String, List, Result, ok, err}
use maritime_test_lab.Prelude.Int.{ℤ}
use maritime_test_lab.Money.{Money}
use maritime_test_lab.Voyage.{Voyage}
use maritime_test_lab.Voyage
use maritime_test_lab.Serde.{Serde, Codec}
use maritime_test_lab.Serde
use maritime_test_lab.Topic

pub record VoyageCreated : Type 0 where
  pub client_request_id : String
  pub origin : String
  pub dest : String
  pub distance_nm : ℤ
  pub fees_minor : ℤ
  pub version : ℤ

-- `calculated_at` is an instant in milliseconds, the unit of the schema.
pub record EstimateReady : Type 0 where
  pub voyage_id : String
  pub voyage_version : ℤ
  pub amount_minor : ℤ
  pub currency : String
  pub calculated_at : ℕ

unfoldable pub to_voyage_created : Voyage → VoyageCreated
to_voyage_created v = record {
  client_request_id = v.client_request_id;
  origin = v.origin;
  dest = v.dest;
  distance_nm = v.distance_nm;
  fees_minor = v.fees_minor;
  version = v.version;
}

unfoldable pub build_estimate_ready : VoyageCreated → Money → ℕ → EstimateReady
build_estimate_ready vc cost at = record {
  voyage_id = vc.client_request_id;
  voyage_version = vc.version;
  amount_minor = cost.minor;
  currency = cost.currency;
  calculated_at = at;
}

-- the outbox encoder that the wiring gives to the repository
unfoldable pub voyage_created_encoder :
    Codec VoyageCreated → Serde → Voyage → Result Voyage.Error (String × List ℕ)
unfolding to_voyage_created
voyage_created_encoder c serde v = elim (Serde.encode c serde (to_voyage_created v)) [
  | ok payload ↦ ok (Topic.voyage_created, payload)
  | err e ↦ err Voyage.infra
]
