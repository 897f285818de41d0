-- ===== src/VoyageService/Server/ReadBack.antt =====
-- What the handlers of the voyage service answered, as its reads show it.
use maritime_test_lab.Prelude.{
  String, false, Option, none, some, Result, ok, err, ◌≡◌, refl, arith, sym, ap, ◌∙◌, Result-cases,
  Option-cases, inl, inr, ◌≢◌, eq_iff,
}
use maritime_test_lab.Grpc.{internal}
use maritime_test_lab.Money.{Money}
use maritime_test_lab.Voyage.{
  Voyage, Error, Estimator, validate, missing_client_request_id, missing_port, negative_distance,
  voyage_not_found, estimator_unavailable, infra,
}
use maritime_test_lab.Repository
use maritime_test_lab.Repository.{
  Row, State, Env, OutboxEncoder, find, scan_voyage, new_row, committed, update_higher_wins,
}
use maritime_test_lab.Repository.Creates.{created_new}
use maritime_test_lab.VoyageService.Server.Laws.{reads, created_then}
use maritime_test_lab.VoyageService.Server.{
  CreateVoyageRequest, CreateVoyageResponse, VoyageMessage, requested, written, message_or_zero,
  to_proto, with_quote, found_or, after_create, create_voyage, update_voyage, get_voyage,
}

-- an answer that a creation gives shows the voyage that was stored
with_quote-voyage :
    (c : Voyage) (q : Result Error Money) (resp : CreateVoyageResponse)
    → with_quote c q ≡ ok resp
    → resp.voyage ≡ to_proto c
with_quote-voyage c (ok quote) resp e = ground arith
with_quote-voyage c (err estimator_unavailable) resp e = ground arith
with_quote-voyage c (err missing_client_request_id) resp e = cc
with_quote-voyage c (err missing_port) resp e = cc
with_quote-voyage c (err negative_distance) resp e = cc
with_quote-voyage c (err voyage_not_found) resp e = cc
with_quote-voyage c (err infra) resp e = cc

get_reads :
    (env : Env) (id : String) (s : State) (c : Voyage)
    → id ≢ ""
    → env.read_fails ≡ false
    → reads id s ≡ some c
    → get_voyage env id s ≡ ok (to_proto c)
unfolding get_voyage Repository.get
get_reads env id s c named r e = elim (Option-cases (find id s.voyages)) [
  | inl f ↦ ground arith
  | inr (row, f) ↦ ground (arith, eq_iff id "")
]

valid-named : (v : Voyage) → validate v ≡ none → v.client_request_id ≢ ""
unfolding validate
valid-named v e = λ h. ground (arith, eq_iff v.client_request_id "")

-- A creation that is answered without an error is read back: a read of its key answers the voyage that the creation answered.
pub create_voyage-get_voyage :
    (encode : OutboxEncoder) (estimator : Estimator) (env env' : Env) (req : CreateVoyageRequest)
    (s : State) (resp : CreateVoyageResponse)
    → (create_voyage encode estimator env req s).0 ≡ ok resp
    → env'.read_fails ≡ false
    → get_voyage env' req.client_request_id (create_voyage encode estimator env req s).1
      ≡ ok resp.voyage
unfolding create_voyage
create_voyage-get_voyage encode estimator env env' req s resp h r =
    elim (Option-cases (validate (requested req))) [
      | inr (e, v) ↦ ground arith
      | inl v ↦ elim (Result-cases (Repository.create encode env (requested req) s).0) [
        | inr (e, c) ↦
            let answer : (create_voyage encode estimator env req s).0 ≡ err internal =
              rw (v, create_voyage) (ap (after_create encode estimator) c) in
            cc
        | inl (c, e) ↦
            let (answer, kept) = created_then encode estimator env req s c v e in
            get_reads env' req.client_request_id (create_voyage encode estimator env req s).1 c
              (valid-named (requested req) v) r kept
            ∙ ap ok (sym (with_quote-voyage c (estimator c) resp (sym answer ∙ h)))
      ]
    ]

update_stored :
    (env : Env) (v c : Voyage) (s : State)
    → (Repository.update env v s).0 ≡ ok c
    → reads v.client_request_id (Repository.update env v s).1 ≡ some c
unfolding Repository.update Repository.get
update_stored env v c s e =
    ground (arith, Option-cases (find v.client_request_id (update_higher_wins v s.voyages)))

found_or-ok :
    (r : Result Error Voyage) (c : VoyageMessage)
    → found_or r ≡ ok c
    → (w : Voyage) × (r ≡ ok w) × (to_proto w ≡ c)
found_or-ok (ok w) c e = (w, refl, cc)
found_or-ok (err missing_client_request_id) c e = cc
found_or-ok (err missing_port) c e = cc
found_or-ok (err negative_distance) c e = cc
found_or-ok (err voyage_not_found) c e = cc
found_or-ok (err estimator_unavailable) c e = cc
found_or-ok (err infra) c e = cc

-- An update that is answered without an error is read back: a read of its key answers the voyage that the update answered.
pub update_voyage-get_voyage :
    (env env' : Env) (voyage : Option VoyageMessage) (s : State) (c : VoyageMessage)
    → (update_voyage env voyage s).0 ≡ ok c
    → env'.read_fails ≡ false
    → get_voyage env' (message_or_zero voyage).client_request_id (update_voyage env voyage s).1
      ≡ ok c
unfolding update_voyage
update_voyage-get_voyage env env' voyage s c h r =
    let v = written (message_or_zero voyage) in
    elim (Option-cases (validate v)) [
      | inr (e, k) ↦ ground arith
      | inl k ↦
          let answer : found_or (Repository.update env v s).0 ≡ ok c =
            sym (rw (k, update_voyage) refl) ∙ h in
          let (w, u, same) = found_or-ok (Repository.update env v s).0 c answer in
          rw (k, update_voyage)
            (get_reads env' v.client_request_id (Repository.update env v s).1 w (valid-named v k) r
                (update_stored env v w s u)
              ∙ ap ok same)
    ]

-- what an acknowledged creation of a fresh key shows is the voyage of the request, at version 1 and without an estimate
pub create_voyage_fresh :
    (encode : OutboxEncoder) (estimator : Estimator) (env : Env) (req : CreateVoyageRequest)
    (s : State) (resp : CreateVoyageResponse)
    → find req.client_request_id s.voyages ≡ none
    → (create_voyage encode estimator env req s).0 ≡ ok resp
    → resp.voyage ≡ to_proto (scan_voyage (new_row env.now (requested req)))
unfolding create_voyage
create_voyage_fresh encode estimator env req s resp fresh h =
    elim (Option-cases (validate (requested req))) [
      | inr (e, v) ↦ ground arith
      | inl v ↦ elim (Result-cases (Repository.create encode env (requested req) s).0) [
        | inr (e, c) ↦
            let answer : (create_voyage encode estimator env req s).0 ≡ err internal =
              rw (v, create_voyage) (ap (after_create encode estimator) c) in
            cc
        | inl (c, e) ↦
            let (answer, kept) = created_then encode estimator env req s c v e in
            with_quote-voyage c (estimator c) resp (sym answer ∙ h)
            ∙ ap to_proto (created_new encode env (requested req) c s fresh e)
      ]
    ]
