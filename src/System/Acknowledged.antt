-- ===== src/System/Acknowledged.antt =====
-- The mutations of clients/onboard-sync, through the gateway and the voyage service, into the tables: what an answer
-- without an error, on which the device drops the operation from its queue, promises.
use maritime_test_lab.Prelude.{
  Bool, true, false, some, Result, ok, err, ◌≡◌, refl, arith, sym, ◌∙◌, ap, subst, Bool-cases, inl,
  inr, str_eq, if◌then◌else◌,
}
use maritime_test_lab.Prelude.Int.{ℤ, ◌≤ℤ◌, wrap, half64, IsInt64}
use maritime_test_lab.Money.{Money}
use maritime_test_lab.Serde.{Serde, Codec}
use maritime_test_lab.Events.{VoyageCreated, EstimateReady, voyage_created_encoder}
use maritime_test_lab.Voyage.{Estimator}
use maritime_test_lab.Repository
use maritime_test_lab.Repository.{Row, Env, State, find}
use maritime_test_lab.Repository.Answers.{create_row, update_row}
use maritime_test_lab.VoyageService.Consumer.{Site}
use maritime_test_lab.Gateway.Resolvers.{
  CreateVoyageInput, UpdateVoyageInput, CreateVoyagePayload, VoyageClient, create_voyage,
  update_voyage,
}
use maritime_test_lab.Gateway.Resolvers
use maritime_test_lab.Gateway.Laws.{over}
use maritime_test_lab.Gateway.Answers.{creates, updates, create_voyage-create, update_voyage-update}
use maritime_test_lab.Onboard.Operation.{Operation, kind_update}
use maritime_test_lab.System.{Step, Steps, Reaches}
use maritime_test_lab.System.Delivery.{Steps-Evolves}
use maritime_test_lab.System.Evolution.{Kept}

-- the inputs that the variables of an operation read as
abbrev pub create_input : Operation → CreateVoyageInput
create_input op = record {
  client_request_id = op.client_request_id;
  origin = op.origin;
  dest = op.dest;
  distance_nm = op.distance_nm;
  fees_minor = op.fees_minor;
}

abbrev pub update_input : Operation → UpdateVoyageInput
update_input op = record {
  client_request_id = op.client_request_id;
  origin = op.origin;
  dest = op.dest;
  distance_nm = op.distance_nm;
  fees_minor = op.fees_minor;
  version = op.version;
}

abbrev pub answered_voyage :
    Result Resolvers.Error CreateVoyagePayload → Result Resolvers.Error Resolvers.Voyage
answered_voyage (ok payload) = ok payload.voyage
answered_voyage (err e) = err e

abbrev pub is_update : Operation → Bool
is_update op = str_eq op.kind kind_update

-- the mutation of an operation, in the resolver that its document names
unfoldable pub mutation :
    {S : Type 0} → VoyageClient S → Operation → S → Result Resolvers.Error Resolvers.Voyage × S
mutation client op s =
    if is_update op
    then update_voyage client (update_input op) s
    else (let (answer, s') = create_voyage client (create_input op) s in
        (answered_voyage answer, s'))

-- the operation's key has a row, and an update's row is at its version or a higher one
abbrev pub Landed : Operation → Site → Type 0
Landed op w =
    (r : Row) × (find op.client_request_id w.state.voyages ≡ some r)
    × (is_update op ≡ true → op.version ≤ℤ r.version)

wrap64_id : (z : ℤ) → IsInt64 z → wrap half64 z ≡ z
unfolding wrap
wrap64_id z h = ground arith

Kept-Landed :
    (op : Operation) (w t : Site) → Kept w.state.voyages t.state.voyages → Landed op w → Landed op t
Kept-Landed op w t kept (r, f, newer) =
    let (r', f', moves) = kept op.client_request_id r f in
    (r', f', λ u. omega (arith, newer u, moves.version))

module _ (created : Codec VoyageCreated) (ready : Codec EstimateReady) (serde : Serde)
    (rate : Money) (estimator : Estimator) (env : Env) where
  abbrev client : VoyageClient State
  client = over (voyage_created_encoder created serde) estimator env

  -- the state behind a mutation
  abbrev pub mutated : Operation → Site → Site
  mutated op w = record w { state = (mutation client op w.state).1 }

  acknowledged_update :
      (op : Operation) (w : Site) (voyage : Resolvers.Voyage)
      → is_update op ≡ true
      → IsInt64 op.version
      → (mutation client op w.state).0 ≡ ok voyage
      → Landed op (mutated op w) × Step created ready serde rate w (mutated op w)
  unfolding mutation
  acknowledged_update op w voyage u fits h =
      let as_update : mutation client op w.state ≡ update_voyage client (update_input op) w.state =
        rw (u, mutation) refl in
      let (c, answer, left) =
        update_voyage-update (voyage_created_encoder created serde) estimator env (update_input op)
          w.state voyage (sym (ap (λ p. p.0) as_update) ∙ h) in
      let (r, f, newer) = update_row env (updates (update_input op)) c w.state answer in
      let same : (mutation client op w.state).1
          ≡ (Repository.update env (updates (update_input op)) w.state).1 =
        ap (λ p. p.1) as_update ∙ left in
      (
        (
          r,
          ap (λ t. find op.client_request_id t.voyages) same ∙ f,
          λ k. subst (λ n. n ≤ℤ r.version) (wrap64_id op.version fits) newer,
        ),
        Step.update env (updates (update_input op)) (ap (λ t. record w { state = t }) same),
      )

  answered-ok :
      (answer : Result Resolvers.Error CreateVoyagePayload) (voyage : Resolvers.Voyage)
      → answered_voyage answer ≡ ok voyage
      → (payload : CreateVoyagePayload) × (answer ≡ ok payload)
  answered-ok (ok payload) voyage e = (payload, refl)
  answered-ok (err x) voyage e = cc

  acknowledged_create :
      (op : Operation) (w : Site) (voyage : Resolvers.Voyage)
      → is_update op ≡ false
      → (mutation client op w.state).0 ≡ ok voyage
      → Landed op (mutated op w) × Step created ready serde rate w (mutated op w)
  unfolding mutation
  acknowledged_create op w voyage u h =
      let as_create : mutation client op w.state ≡ (
          let (answer, s') = create_voyage client (create_input op) w.state in
          (answered_voyage answer, s')) =
        rw (u, mutation) refl in
      let (payload, answered) =
        answered-ok (create_voyage client (create_input op) w.state).0 voyage
          (sym (ap (λ p. p.0) as_create) ∙ h) in
      let (c, answer, left) =
        create_voyage-create (voyage_created_encoder created serde) estimator env (create_input op)
          w.state payload answered in
      let (r, f) =
        create_row (voyage_created_encoder created serde) env (creates (create_input op)) c w.state
          answer in
      let same : (mutation client op w.state).1
          ≡ (Repository.create (voyage_created_encoder created serde) env
              (creates (create_input op)) w.state).1 =
        ap (λ p. p.1) as_create ∙ left in
      (
        (r, ap (λ t. find op.client_request_id t.voyages) same ∙ f, λ k. ground arith),
        Step.create env (creates (create_input op)) (ap (λ t. record w { state = t }) same),
      )

  -- No acknowledged write is lost: if, in a state that calls of the services led to, the gateway answers the mutation of an operation, whose version is an
  -- int64, without an error, in whatever environment, then the key of the operation has a row in every state that later calls of the services lead to, with any
  -- failures, and the row of an update is at the version of the operation or a higher one.
  pub mutation-Landed :
      (op : Operation) (w t : Site) (voyage : Resolvers.Voyage)
      → IsInt64 op.version
      → Reaches created ready serde rate w
      → (mutation client op w.state).0 ≡ ok voyage
      → Steps created ready serde rate (mutated op w) t
      → Landed op t
  mutation-Landed op w t voyage fits reached h later =
      let (landed, step) : Landed op (mutated op w)
          × Step created ready serde rate w (mutated op w) =
        elim (Bool-cases (is_update op)) [
          | inl u ↦ acknowledged_update op w voyage u fits h
          | inr u ↦ acknowledged_create op w voyage u h
        ] in
      Kept-Landed op (mutated op w) t
        (Steps-Evolves created ready serde rate (mutated op w) t (Reaches.step reached step)
          later).rows
        landed
