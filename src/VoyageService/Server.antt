-- ===== src/VoyageService/Server.antt =====
-- services/voyage/adapters/grpcserver/server.go, and the messages of gen/proto/voyage/v1. A nil message
-- reads as one whose fields are zero, which is what the generated getters give.
pub mod Laws
pub mod ReadBack
use maritime_test_lab.Prelude.{
  ℕ, String, Bool, true, false, Option, none, some, List, Result, ok, err, if◌then◌else◌, str_eq,
}
use maritime_test_lab.Prelude.Int.{ℤ, pos}
use maritime_test_lab.Grpc.{Code, invalid_argument, not_found, internal}
use maritime_test_lab.Money.{Money}
use maritime_test_lab.Voyage.{
  Voyage, Error, Estimator, validate, missing_client_request_id, missing_port, negative_distance,
  voyage_not_found, estimator_unavailable, infra,
}
use maritime_test_lab.Repository
use maritime_test_lab.Repository.{State, Env, OutboxEncoder}

-- voyagev1.Voyage
pub record VoyageMessage : Type 0 where
  pub client_request_id : String
  pub origin : String
  pub dest : String
  pub distance_nm : ℤ
  pub fees_minor : ℤ
  pub version : ℤ
  pub estimate_minor : ℤ

pub record CreateVoyageRequest : Type 0 where
  pub client_request_id : String
  pub origin : String
  pub dest : String
  pub distance_nm : ℤ
  pub fees_minor : ℤ

pub record CreateVoyageResponse : Type 0 where
  pub voyage : VoyageMessage
  pub provisional_estimate_minor : ℤ
  pub estimate_pending : Bool

abbrev pub zero_message : VoyageMessage
zero_message = record {
  client_request_id = "";
  origin = "";
  dest = "";
  distance_nm = pos 0;
  fees_minor = pos 0;
  version = pos 0;
  estimate_minor = pos 0;
}

-- the getters of a message that may be nil
abbrev pub message_or_zero : Option VoyageMessage → VoyageMessage
message_or_zero none = zero_message
message_or_zero (some m) = m

unfoldable pub to_proto : Voyage → VoyageMessage
to_proto v = record {
  client_request_id = v.client_request_id;
  origin = v.origin;
  dest = v.dest;
  distance_nm = v.distance_nm;
  fees_minor = v.fees_minor;
  version = v.version;
  estimate_minor = v.estimate_minor;
}

abbrev pub requested : CreateVoyageRequest → Voyage
requested req = record {
  client_request_id = req.client_request_id;
  origin = req.origin;
  dest = req.dest;
  distance_nm = req.distance_nm;
  fees_minor = req.fees_minor;
  version = pos 0;
  estimate_minor = pos 0;
}

abbrev pub written : VoyageMessage → Voyage
written m = record {
  client_request_id = m.client_request_id;
  origin = m.origin;
  dest = m.dest;
  distance_nm = m.distance_nm;
  fees_minor = m.fees_minor;
  version = m.version;
  estimate_minor = pos 0;
}

-- what follows the quote; `errors.Is(err, ErrEstimatorUnavailable)` is the one error that degrades
abbrev pub with_quote : Voyage → Result Error Money → Result Code CreateVoyageResponse
with_quote created (ok quote) = ok (record {
  voyage = to_proto created;
  provisional_estimate_minor = quote.minor;
  estimate_pending = false;
})
with_quote created (err estimator_unavailable) = ok (record {
  voyage = to_proto created;
  provisional_estimate_minor = pos 0;
  estimate_pending = true;
})
with_quote created (err e) = err internal

-- `errors.Is(err, ErrVoyageNotFound)`
abbrev pub found_or : Result Error Voyage → Result Code VoyageMessage
found_or (ok v) = ok (to_proto v)
found_or (err voyage_not_found) = err not_found
found_or (err e) = err internal

module _ (encode : OutboxEncoder) (estimator : Estimator) where
  abbrev pub after_create : Result Error Voyage → Result Code CreateVoyageResponse
  after_create (ok created) = with_quote created (estimator created)
  after_create (err e) = err internal

  unfoldable pub create_voyage :
      Env → CreateVoyageRequest → State → Result Code CreateVoyageResponse × State
  create_voyage env req s = elim (validate (requested req)) [
    | some e ↦ (err invalid_argument, s)
    | none ↦
        let (created, s') = Repository.create encode env (requested req) s in
        (after_create created, s')
  ]

unfoldable pub update_voyage :
    Env → Option VoyageMessage → State → Result Code VoyageMessage × State
update_voyage env voyage s = elim (validate (written (message_or_zero voyage))) [
  | some e ↦ (err invalid_argument, s)
  | none ↦
      let (current, s') = Repository.update env (written (message_or_zero voyage)) s in
      (found_or current, s')
]

unfoldable pub get_voyage : Env → String → State → Result Code VoyageMessage
get_voyage env client_request_id s =
    if str_eq client_request_id ""
    then err invalid_argument
    else found_or (Repository.get env client_request_id s)
