-- ===== src/Tests/Gateway.antt =====
-- gateway/graph and the transport of clients/onboard-sync on small inputs.
use maritime_test_lab.Prelude.{
  true, refl, ◌↔◌, arith, ℕ, String, false, Option, some, List, [], ◌∷◌, ok, err, ◌≡◌, ◌+◌, ◌^◌,
}
use maritime_test_lab.Prelude.Int.{pos, wrap, IsInt32}
use maritime_test_lab.Repository.{Env, OutboxEncoder, committed, empty, create, find, scan_voyage}
use maritime_test_lab.Voyage.{Estimator, estimator_unavailable, validate}
use maritime_test_lab.VoyageService.Server.{to_proto}
use maritime_test_lab.VoyageService.Server
use maritime_test_lab.Gateway.Resolvers.{
  CreateVoyageInput, CreateVoyagePayload, create_voyage, to_model_voyage,
}
use maritime_test_lab.Gateway.Laws.{create_voyage_truncates, truncated}
use maritime_test_lab.Onboard.Transport.{Documents, Reply, answered, GraphqlRequest}

abbrev pub calm : Env
calm = record {
  now = 5;
  begin_fails = false;
  query_fails = false;
  exec_fails = false;
  commit = committed;
  read_fails = false;
  carrier = ok [];
}

abbrev pub encode : OutboxEncoder
encode v = ok ("voyage.created", 0 ∷ [])

abbrev pub offline : Estimator
offline v = err estimator_unavailable

abbrev too_far : CreateVoyageInput
too_far = record {
  client_request_id = "a";
  origin = "NLRTM";
  dest = "SGSIN";
  distance_nm = pos (2 ^ 32 + 5);
  fees_minor = pos 150;
}

abbrev cut_short : CreateVoyagePayload
cut_short = record {
  voyage = record {
    client_request_id = "a";
    origin = "NLRTM";
    dest = "SGSIN";
    distance_nm = pos 5;
    fees_minor = pos 150;
    version = pos 1;
    estimate_minor = pos 0;
  };
  provisional_estimate_minor = pos 0;
  estimate_pending = true;
}

create_voyage_truncates_example :
    (cut_short.voyage ≡ truncated too_far)
    × ((cut_short.voyage.distance_nm ≡ too_far.distance_nm) ↔ IsInt32 too_far.distance_nm)
unfolding create_voyage Server.create_voyage validate create find scan_voyage to_proto
    to_model_voyage wrap
create_voyage_truncates_example =
    create_voyage_truncates encode offline calm too_far empty cut_short refl (omega arith) refl

abbrev pub docs : Documents
docs = record { create_voyage = "c"; update_voyage = "u" }

abbrev pub marshal : GraphqlRequest → Option (List ℕ)
marshal r = some (1 ∷ [])

abbrev pub post : List ℕ → Reply
post body = answered 200 (2 ∷ [])

abbrev pub errors_of : List ℕ → Option (List String)
errors_of payload = some []
