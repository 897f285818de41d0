-- ===== src/VoyageService/Server/Laws.antt =====
-- The handlers of the voyage service, against the repository and the estimator behind them.
use mathlib.Core.Option
use maritime_test_lab.Prelude.{
  String, Bool, true, false, Option, none, some, ok, err, ◌≡◌, refl, sym, ap, ◌∙◌, Option-cases,
  inl, inr,
}
use maritime_test_lab.Prelude.Int.{pos}
use maritime_test_lab.Grpc.{invalid_argument, not_found, internal}
use maritime_test_lab.Money.{Money, from_usd}
use maritime_test_lab.Estimate
use maritime_test_lab.Estimate.{estimate_cost}
use maritime_test_lab.Estimator.Server
use maritime_test_lab.Voyage.{Voyage, Estimator, validate, voyage_not_found, estimator_unavailable}
use maritime_test_lab.Repository
use maritime_test_lab.Repository.{Row, State, Env, OutboxEncoder, find, scan_voyage, committed}
use maritime_test_lab.Repository.Creates.{create_stored, create_atomic, Created}
use maritime_test_lab.Repository.Updates.{update-merge, merge}
use maritime_test_lab.VoyageService.EstimatorClient
use maritime_test_lab.VoyageService.EstimatorClient.{estimate-eq-estimate_cost}
use maritime_test_lab.VoyageService.Server.{
  CreateVoyageRequest, VoyageMessage, requested, written, message_or_zero, to_proto, with_quote,
  found_or, after_create, create_voyage, update_voyage,
}

abbrev pub is_some {ℓ} : {A : Type ℓ} → Option A → Bool
is_some none = false
is_some (some a) = true

-- the voyage that a key reads as
abbrev pub reads : String → State → Option Voyage
reads id s = Option.map scan_voyage (find id s.voyages)

module _ (encode : OutboxEncoder) where
  pub created_then :
      (estimator : Estimator) (env : Env) (req : CreateVoyageRequest) (s : State) (c : Voyage)
      → validate (requested req) ≡ none
      → (Repository.create encode env (requested req) s).0 ≡ ok c
      → ((create_voyage encode estimator env req s).0 ≡ with_quote c (estimator c))
        × (reads req.client_request_id (create_voyage encode estimator env req s).1 ≡ some c)
  unfolding create_voyage
  created_then estimator env req s c v e =
      rw (v, create_voyage)
        (ap (after_create encode estimator) e, create_stored encode env (requested req) c s e)

  -- If the estimator is unavailable, a voyage that the repository acknowledged is stored and returned, its
  -- estimate marked as pending and its provisional amount 0.
  pub create_voyage_degrades :
      (estimator : Estimator) (env : Env) (req : CreateVoyageRequest) (s : State) (c : Voyage)
      → validate (requested req) ≡ none
      → (Repository.create encode env (requested req) s).0 ≡ ok c
      → estimator c ≡ err estimator_unavailable
      → ((create_voyage encode estimator env req s).0
          ≡ ok (record {
            voyage = to_proto c;
            provisional_estimate_minor = pos 0;
            estimate_pending = true;
          }))
        × (reads req.client_request_id (create_voyage encode estimator env req s).1 ≡ some c)
  create_voyage_degrades estimator env req s c v e u =
      let (answer, kept) = created_then estimator env req s c v e in
      (answer ∙ ap (with_quote c) u, kept)

  -- an acknowledged creation of a fresh key added the voyage and its event
  both_added :
      (env : Env) (v c : Voyage) (s : State)
      → find v.client_request_id s.voyages ≡ none
      → (Repository.create encode env v s).0 ≡ ok c
      → Created encode env.now env.carrier v s (Repository.create encode env v s).1
  both_added env v c s fresh e = elim (create_atomic encode env v s) [
    | inr k ↦ k
    | inl u ↦
        let stored : Option.map scan_voyage (find v.client_request_id s.voyages) ≡ some c =
          ap (λ rows. Option.map scan_voyage (find v.client_request_id rows)) (sym u.voyages)
          ∙ create_stored encode env v c s e in
        let none_stored : none ≡ some c = ap (Option.map scan_voyage) (sym fresh) ∙ stored in
        absurd (cc)
  ]

  -- A voyage of a fresh key, whose creation the repository acknowledges and whose price the estimator refuses (an overflow, for one), is stored at version 1 together with its event, which then stands
  -- unpublished at the end of the outbox, and reads as what the repository acknowledged; and yet its creation is answered as an internal error.
  pub create_voyage_unpriced :
      (rate : Money) (env : Env) (req : CreateVoyageRequest) (s : State) (c : Voyage)
      (x : Estimate.Error)
      → validate (requested req) ≡ none
      → find req.client_request_id s.voyages ≡ none
      → (Repository.create encode env (requested req) s).0 ≡ ok c
      → estimate_cost c.distance_nm (from_usd c.fees_minor) rate ≡ err x
      → let estimator : Estimator = EstimatorClient.estimate (Server.estimate rate) in
        let (answer, t) = create_voyage encode estimator env req s in
        (answer ≡ err internal)
        × Created encode env.now env.carrier (requested req) s t
        × (reads req.client_request_id t ≡ some c)
  unfolding create_voyage
  create_voyage_unpriced rate env req s c x v fresh e u =
      let (answer, kept) =
        created_then (EstimatorClient.estimate (Server.estimate rate)) env req s c v e in
      (
        answer ∙ ap (with_quote c) (estimate-eq-estimate_cost rate c ∙ ap EstimatorClient.quoted u),
        rw (v, create_voyage) (both_added env (requested req) c s fresh e),
        kept,
      )

-- An update answers invalid-argument for a voyage that does not validate, and then changes nothing; for one that does, over a database
-- that answers and commits, it answers not-found if the key has no row, and otherwise the row of the key with the higher version of the two, which is then what the row reads as.
pub update_voyage-merge :
    (env : Env) (voyage : Option VoyageMessage) (s : State)
    → env.exec_fails ≡ false
    → env.commit ≡ committed
    → env.read_fails ≡ false
    → let v : Voyage = written (message_or_zero voyage) in
      (update_voyage env voyage s).0 ≡ elim (validate v) [
        | some e ↦ err invalid_argument
        | none ↦ elim (find v.client_request_id s.voyages) [
          | none ↦ err not_found
          | some r ↦ ok (to_proto (scan_voyage (merge v r)))
        ]
      ]
unfolding update_voyage
update_voyage-merge env voyage s he hc hr =
    elim (Option-cases (validate (written (message_or_zero voyage)))) [
      | inr (e, v) ↦ rw (v, update_voyage) refl
      | inl v ↦
          rw (v, update_voyage)
            (ap found_or (update-merge env (written (message_or_zero voyage)) s "" he hc hr).0
              ∙ found (find (message_or_zero voyage).client_request_id s.voyages))
    ]
  where
    found :
        (o : Option Row)
        → found_or (elim o [
          | none ↦ err voyage_not_found
          | some r ↦ ok (scan_voyage (merge (written (message_or_zero voyage)) r))
        ])
          ≡ elim o [
            | none ↦ err not_found
            | some r ↦ ok (to_proto (scan_voyage (merge (written (message_or_zero voyage)) r)))
          ]
    found none = refl
    found (some r) = refl
