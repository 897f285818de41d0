-- ===== src/System/Posted/ReadBack.antt =====
-- A voyage that a device created or updated, as a query shows it.
use maritime_test_lab.Prelude.{
  Bool-cases, inl, inr, String, false, some, [], ◌∷◌, Result, ok, err, ◌≡◌, refl, sym, ap, ◌∙◌,
}
use maritime_test_lab.Voyage.{Estimator}
use maritime_test_lab.Repository.{Env, State, OutboxEncoder}
use maritime_test_lab.Gateway.Resolvers.{
  Voyage, CreateVoyagePayload, Error, create_voyage, update_voyage, voyage,
}
use maritime_test_lab.Gateway.Laws.{over, create_voyage-voyage, update_voyage-voyage}
use maritime_test_lab.Gateway.Schema.Input.{Scalars}
use maritime_test_lab.Gateway.Schema.Object.{
  object, no_entries, entry, Runtime, marshal_optional_voyage,
}
use maritime_test_lab.Gateway.Schema.Query.{QueryField, Answer, query}
use maritime_test_lab.Gateway.Schema.Laws.{Resolves}
use maritime_test_lab.Gateway.Schema.ReadBack.{Answers, voyage_field, query-voyage_field}
use maritime_test_lab.Onboard.Operation.{Operation}
use maritime_test_lab.System.Acknowledged.{
  mutation, is_update, create_input, update_input, answered_voyage,
}
use maritime_test_lab.System.Posted.{Wire, Reads, Fits, posted, created_leaves}
use maritime_test_lab.System.Posted.Laws.{posted-answered}
use maritime_test_lab.System.Posted.Responses.{Plain, shown_voyage, shown}

answered_voyage-ok :
    (r : Result Error CreateVoyagePayload) (v : Voyage)
    → answered_voyage r ≡ ok v
    → (payload : CreateVoyagePayload) × (r ≡ ok payload) × (payload.voyage ≡ v)
answered_voyage-ok (ok payload) v e = (payload, refl, cc)
answered_voyage-ok (err x) v e = cc

module _ {V : Type 0} (scalars : Scalars V) (wire : Wire V) (reads : Reads scalars wire)
    (runtime : Runtime State) (resolves : Resolves runtime) (plain : Plain runtime)
    (answers : Answers runtime) (introspect : QueryField V → Answer) (encode : OutboxEncoder)
    (estimator : Estimator) (env env' : Env) where
  -- what the query shows when the resolvers read the voyage
  query-shown :
      (alias : String) (op : Operation) (s : State) (v : Voyage)
      → voyage (over encode estimator env') op.client_request_id s ≡ ok (some v)
      → query scalars runtime
          (over encode estimator env')
          introspect
          ((voyage_field alias (wire.text op.client_request_id) created_leaves, s) ∷ [])
        ≡ some (object (entry alias (shown_voyage runtime plain v) no_entries), [])
  unfolding marshal_optional_voyage
  query-shown alias op s v e =
      query-voyage_field scalars runtime answers (over encode estimator env') introspect alias
        (wire.text op.client_request_id) created_leaves s op.client_request_id (some v)
        (shown_voyage runtime plain v) (reads.id op.client_request_id) e (shown runtime plain v)

  -- the resolver of the query reads what the mutation answered
  mutation-voyage :
      (op : Operation) (s : State) (v : Voyage)
      → (mutation (over encode estimator env) op s).0 ≡ ok v
      → env'.read_fails ≡ false
      → voyage
          (over encode estimator env')
          op.client_request_id
          (mutation (over encode estimator env) op s).1
        ≡ ok (some v)
  unfolding mutation
  mutation-voyage op s v answered reads_well =
      let client = over encode estimator env in
      elim (Bool-cases (is_update op)) [
        | inl u ↦
            let run : mutation client op s ≡ update_voyage client (update_input op) s =
              rw (u, mutation) refl in
            ap (λ p. voyage (over encode estimator env') op.client_request_id p.1) run
            ∙ update_voyage-voyage encode estimator env env' (update_input op) s v
                (sym (ap (λ p. p.0) run) ∙ answered) reads_well
        | inr u ↦
            let run : mutation client op s ≡ (
                let (answer, s') = create_voyage client (create_input op) s in
                (answered_voyage answer, s')) =
              rw (u, mutation) refl in
            let (payload, created, same) =
              answered_voyage-ok (create_voyage client (create_input op) s).0 v
                (sym (ap (λ p. p.0) run) ∙ answered) in
            ap (λ p. voyage (over encode estimator env') op.client_request_id p.1) run
            ∙ create_voyage-voyage encode estimator env env' (create_input op) s payload created
                reads_well
            ∙ ap (λ w. ok (some w)) same
      ]

  -- What a mutation answers to a device is what a query shows: if a post of an operation, whose numbers are int64, is answered without errors, then a query behind it for the operation's id, whose statement
  -- succeeds, answers without errors the voyage that the mutation answered, field by field; if the runtime resolves fields as gqlgen documents, and its scalars read what the post carries.
  pub posted-query :
      (alias : String) (op : Operation) (s : State)
      → Fits op
      → (posted scalars wire runtime (over encode estimator env) op s).0 ≡ []
      → env'.read_fails ≡ false
      → (v : Voyage) × ((mutation (over encode estimator env) op s).0 ≡ ok v)
        × (query scalars runtime (over encode estimator env') introspect (
              (
                voyage_field alias (wire.text op.client_request_id) created_leaves,
                (posted scalars wire runtime (over encode estimator env) op s).1,
              )
              ∷ [])
            ≡ some (object (entry alias (shown_voyage runtime plain v) no_entries), []))
  posted-query alias op s fits clean reads_well =
      let (v, answered, ran) =
        posted-answered scalars wire reads runtime resolves (over encode estimator env) op s fits
          clean in
      (
        v,
        answered,
        query-shown alias op _ v (
            ap (voyage (over encode estimator env') op.client_request_id) ran
            ∙ mutation-voyage op s v answered reads_well),
      )
