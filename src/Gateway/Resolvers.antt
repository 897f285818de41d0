-- ===== src/Gateway/Resolvers.antt =====
-- gateway/graph/schema.resolvers.go and mapping.go, with the models of gen/graphql/model/models_gen.go. Go's `int` has 64 bits. The client of the voyage service is a parameter.
use maritime_test_lab.Prelude.{
  String, Bool, Option, none, some, Result, ok, err, if◌then◌else◌, str_eq,
}
use maritime_test_lab.Prelude.Int.{ℤ, pos, wrap, half32, half64}
use maritime_test_lab.Grpc.{Code, not_found}
use maritime_test_lab.VoyageService.Server.{
  VoyageMessage, CreateVoyageRequest, CreateVoyageResponse,
}

-- model.Voyage
pub record Voyage : Type 0 where
  pub client_request_id : String
  pub origin : String
  pub dest : String
  pub distance_nm : ℤ
  pub fees_minor : ℤ
  pub version : ℤ
  pub estimate_minor : ℤ

pub record CreateVoyageInput : Type 0 where
  pub client_request_id : String
  pub origin : String
  pub dest : String
  pub distance_nm : ℤ
  pub fees_minor : ℤ

pub record CreateVoyagePayload : Type 0 where
  pub voyage : Voyage
  pub provisional_estimate_minor : ℤ
  pub estimate_pending : Bool

pub record UpdateVoyageInput : Type 0 where
  pub client_request_id : String
  pub origin : String
  pub dest : String
  pub distance_nm : ℤ
  pub fees_minor : ℤ
  pub version : ℤ

-- the resolvers' errors: an input refused here, or a status of the voyage service
pub data Error : Type 0 where
  missing_client_request_id : Error
  service : Code → Error

-- the conversion `int32(n)`
abbrev pub int32 : ℤ → ℤ
int32 n = wrap half32 n

-- the conversions between int64 and `int`
abbrev pub int64 : ℤ → ℤ
int64 n = wrap half64 n

unfoldable pub to_model_voyage : VoyageMessage → Voyage
to_model_voyage v = record {
  client_request_id = v.client_request_id;
  origin = v.origin;
  dest = v.dest;
  distance_nm = int64 v.distance_nm;
  fees_minor = int64 v.fees_minor;
  version = int64 v.version;
  estimate_minor = int64 v.estimate_minor;
}

abbrev pub create_request : CreateVoyageInput → CreateVoyageRequest
create_request input = record {
  client_request_id = input.client_request_id;
  origin = input.origin;
  dest = input.dest;
  distance_nm = int32 input.distance_nm;
  fees_minor = int64 input.fees_minor;
}

abbrev pub update_message : UpdateVoyageInput → VoyageMessage
update_message input = record {
  client_request_id = input.client_request_id;
  origin = input.origin;
  dest = input.dest;
  distance_nm = int32 input.distance_nm;
  fees_minor = int64 input.fees_minor;
  version = int64 input.version;
  estimate_minor = pos 0;
}

-- what `r.VoyageClient` answers and does, over the state behind it
pub record VoyageClient (S : Type 0) : Type 0 where
  pub create_voyage : CreateVoyageRequest → S → Result Code CreateVoyageResponse × S
  pub update_voyage : Option VoyageMessage → S → Result Code VoyageMessage × S
  pub get_voyage : String → S → Result Code VoyageMessage

abbrev pub created : Result Code CreateVoyageResponse → Result Error CreateVoyagePayload
created (ok resp) = ok (record {
  voyage = to_model_voyage resp.voyage;
  provisional_estimate_minor = int64 resp.provisional_estimate_minor;
  estimate_pending = resp.estimate_pending;
})
created (err code) = err (service code)

abbrev pub updated : Result Code VoyageMessage → Result Error Voyage
updated (ok resp) = ok (to_model_voyage resp)
updated (err code) = err (service code)

-- GraphQL null for an unknown voyage
abbrev pub found : Result Code VoyageMessage → Result Error (Option Voyage)
found (ok resp) = ok (some (to_model_voyage resp))
found (err not_found) = ok none
found (err code) = err (service code)

module _ {S : Type 0} (client : VoyageClient S) where
  unfoldable pub create_voyage : CreateVoyageInput → S → Result Error CreateVoyagePayload × S
  create_voyage input s =
      if str_eq input.client_request_id ""
      then (err missing_client_request_id, s)
      else (let (resp, s') = client.create_voyage (create_request input) s in (created resp, s'))

  unfoldable pub update_voyage : UpdateVoyageInput → S → Result Error Voyage × S
  update_voyage input s =
      let (resp, s') = client.update_voyage (some (update_message input)) s in (updated resp, s')

  unfoldable pub voyage : String → S → Result Error (Option Voyage)
  voyage client_request_id s = found (client.get_voyage client_request_id s)
