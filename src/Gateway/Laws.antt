-- ===== src/Gateway/Laws.antt =====
-- What the resolvers pass on.
use maritime_test_lab.Prelude.{
  ℕ, ◌↔◌, none, subst, false, some, Result, ok, err, str_eq, ◌≡◌, refl, arith, sym, ap, ◌∙◌,
  Bool-cases, inl, inr,
}
use maritime_test_lab.Prelude.Int.{ℤ, pos, wrap, half32, IsInt32, IsInt64, wrap_id}
use maritime_test_lab.Grpc.{Code}
use maritime_test_lab.Voyage.{Estimator}
use maritime_test_lab.Repository.{Env, State, OutboxEncoder, find, new_row, scan_voyage}
use maritime_test_lab.VoyageService.Server.{
  CreateVoyageResponse, VoyageMessage, requested, to_proto,
}
use maritime_test_lab.VoyageService.Server
use maritime_test_lab.VoyageService.Server.ReadBack.{
  create_voyage_fresh, create_voyage-get_voyage, update_voyage-get_voyage,
}
use maritime_test_lab.Gateway.Resolvers.{
  Voyage, UpdateVoyageInput, update_voyage, update_message, updated, CreateVoyageInput,
  CreateVoyagePayload, VoyageClient, create_voyage, create_request, created, to_model_voyage,
  voyage, found,
}

-- the client of a voyage service whose handlers run as `Env` says
abbrev pub over : OutboxEncoder → Estimator → Env → VoyageClient State
over encode estimator env = record {
  create_voyage = Server.create_voyage encode estimator env;
  update_voyage = Server.update_voyage env;
  get_voyage = Server.get_voyage env;
}

created-ok :
    (r : Result Code CreateVoyageResponse) (payload : CreateVoyagePayload)
    → created r ≡ ok payload
    → (resp : CreateVoyageResponse) × (r ≡ ok resp) × (to_model_voyage resp.voyage ≡ payload.voyage)
created-ok (ok resp) payload e = (resp, refl, ground arith)
created-ok (err code) payload e = cc

-- Over the voyage service and its repository, a createVoyage that is answered without an error is read back: the voyage query on its key
-- answers the voyage of the payload.
pub create_voyage-voyage :
    (encode : OutboxEncoder) (estimator : Estimator) (env env' : Env) (input : CreateVoyageInput)
    (s : State) (payload : CreateVoyagePayload)
    → (create_voyage (over encode estimator env) input s).0 ≡ ok payload
    → env'.read_fails ≡ false
    → voyage
        (over encode estimator env')
        input.client_request_id
        (create_voyage (over encode estimator env) input s).1
      ≡ ok (some payload.voyage)
unfolding create_voyage voyage
create_voyage-voyage encode estimator env env' input s payload h r =
    elim (Bool-cases (str_eq input.client_request_id "")) [
      | inl e ↦ ground arith
      | inr e ↦
          let (resp, answered, same) =
            created-ok (Server.create_voyage encode estimator env (create_request input) s).0
              payload (sym (rw (e, create_voyage) refl) ∙ h) in
          rw (e, create_voyage)
            (ap found (
                create_voyage-get_voyage encode estimator env env' (create_request input) s resp
                  answered r)
              ∙ ap (λ v. ok (some v)) same)
    ]

updated-ok :
    (r : Result Code VoyageMessage) (v : Voyage)
    → updated r ≡ ok v
    → (m : VoyageMessage) × (r ≡ ok m) × (to_model_voyage m ≡ v)
updated-ok (ok m) v e = (m, refl, ground arith)
updated-ok (err code) v e = cc

-- Over the voyage service and its repository, an updateVoyage that is answered without an error is read back: the voyage query on its key
-- answers the voyage that the mutation answered, which a higher version may have written.
pub update_voyage-voyage :
    (encode : OutboxEncoder) (estimator : Estimator) (env env' : Env) (input : UpdateVoyageInput)
    (s : State) (v : Voyage)
    → (update_voyage (over encode estimator env) input s).0 ≡ ok v
    → env'.read_fails ≡ false
    → voyage
        (over encode estimator env')
        input.client_request_id
        (update_voyage (over encode estimator env) input s).1
      ≡ ok (some v)
unfolding update_voyage voyage
update_voyage-voyage encode estimator env env' input s v h r =
    let message = some (update_message input) in
    let (m, answered, same) = updated-ok (Server.update_voyage env message s).0 v h in
    ap found (update_voyage-get_voyage env env' message s m answered r) ∙ ap (λ w. ok (some w)) same

wrap32-IsInt32 : (z : ℤ) → IsInt32 (wrap half32 z)
unfolding wrap
wrap32-IsInt32 z = ground arith

wrap32_id : (z : ℤ) → IsInt32 z → wrap half32 z ≡ z
unfolding wrap
wrap32_id z h = ground arith

int32-IsInt64 : (z : ℤ) → IsInt32 z → IsInt64 z
int32-IsInt64 z h = ground arith

-- the voyage of an input whose distance is cut to an int32
abbrev pub truncated : CreateVoyageInput → Voyage
truncated input = record {
  client_request_id = input.client_request_id;
  origin = input.origin;
  dest = input.dest;
  distance_nm = wrap half32 input.distance_nm;
  fees_minor = input.fees_minor;
  version = pos 1;
  estimate_minor = pos 0;
}

first_shown :
    (now : ℕ) (input : CreateVoyageInput)
    → IsInt64 input.fees_minor
    → to_model_voyage (to_proto (scan_voyage (new_row now (requested (create_request input)))))
      ≡ truncated input
unfolding to_model_voyage to_proto scan_voyage
first_shown now input fits =
    rw
      (
        wrap_id input.fees_minor fits,
        wrap_id input.fees_minor fits,
        wrap_id (wrap half32 input.distance_nm)
            (int32-IsInt64 (wrap half32 input.distance_nm) (wrap32-IsInt32 input.distance_nm)),
        wrap_id (pos 1) (omega arith),
        wrap_id (pos 0) (omega arith),
      )
      refl

-- A createVoyage for a fresh key, with int64 fees, that is answered without an error answers the voyage of its input but for the distance, which is cut to the int32 that it wraps around to, at version 1 and
-- without an estimate: so the voyage has the distance that was asked for exactly when that is an int32, and no error tells of any other.
pub create_voyage_truncates :
    (encode : OutboxEncoder) (estimator : Estimator) (env : Env) (input : CreateVoyageInput)
    (s : State) (payload : CreateVoyagePayload)
    → find input.client_request_id s.voyages ≡ none
    → IsInt64 input.fees_minor
    → (create_voyage (over encode estimator env) input s).0 ≡ ok payload
    → (payload.voyage ≡ truncated input)
      × ((payload.voyage.distance_nm ≡ input.distance_nm) ↔ IsInt32 input.distance_nm)
unfolding create_voyage
create_voyage_truncates encode estimator env input s payload fresh fits h =
    elim (Bool-cases (str_eq input.client_request_id "")) [
      | inl e ↦ ground arith
      | inr e ↦
          let (resp, answered, same) =
            created-ok (Server.create_voyage encode estimator env (create_request input) s).0
              payload (sym (rw (e, create_voyage) refl) ∙ h) in
          let shown : payload.voyage ≡ truncated input =
            sym same
            ∙ ap to_model_voyage (
                create_voyage_fresh encode estimator env (create_request input) s resp fresh
                  answered)
            ∙ first_shown env.now input fits in
          let cut : payload.voyage.distance_nm ≡ wrap half32 input.distance_nm =
            ap (λ v. v.distance_nm) shown in
          (
            shown,
            (
              λ k. subst IsInt32 (sym cut ∙ k) (wrap32-IsInt32 input.distance_nm),
              λ k. cut ∙ wrap32_id input.distance_nm k,
            ),
          )
    ]
