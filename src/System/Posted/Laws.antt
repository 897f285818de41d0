-- ===== src/System/Posted/Laws.antt =====
-- What a response without errors says of the operation that was posted.
use maritime_test_lab.Prelude.{
  String, true, false, some, [], ◌∷◌, ok, Result, ◌≡◌, refl, sym, ap, ◌∙◌, Bool-cases, inl, inr,
}
use maritime_test_lab.Gateway.Resolvers.{Voyage, VoyageClient, create_voyage, update_voyage}
use maritime_test_lab.Gateway.Schema.Input.{
  Scalars, value_at, read_field, unmarshal_create_voyage_input, unmarshal_update_voyage_input,
}
use maritime_test_lab.Gateway.Schema.Object.{Runtime}
use maritime_test_lab.Gateway.Schema.Root.{RootField, mutate}
use maritime_test_lab.Gateway.Schema.Laws.{
  Resolves, mutation_create_voyage-answered, mutation_update_voyage-answered, create_field,
  update_field, mutate-create_field, mutate-update_field,
}
use maritime_test_lab.Onboard.Operation.{Operation}
use maritime_test_lab.Onboard.Transport.{variables}
use maritime_test_lab.System.Acknowledged.{
  mutation, is_update, create_input, update_input, answered_voyage,
}
use maritime_test_lab.System.Posted.{
  Wire, raw_input, posted_field, posted, create_voyage_selections, update_voyage_selections, Fits,
  Reads,
}

ok_injective : {A : Type 0} {a b : A} (r : Result String A) → r ≡ ok a → r ≡ ok b → a ≡ b
ok_injective r e f = cc

module _ {V : Type 0} (scalars : Scalars V) (wire : Wire V) (reads : Reads scalars wire) where
  read_create :
      (op : Operation)
      → Fits op
      → unmarshal_create_voyage_input scalars (some (raw_input wire (variables op)))
        ≡ ok (create_input op)
  unfolding unmarshal_create_voyage_input read_field value_at variables
  read_create op fits =
      rw
        (
          reads.id op.client_request_id,
          reads.string op.origin,
          reads.string op.dest,
          reads.int op.distance_nm fits.distance_nm,
          reads.int op.fees_minor fits.fees_minor,
        )
        refl

  read_update :
      (op : Operation)
      → Fits op
      → is_update op ≡ true
      → unmarshal_update_voyage_input scalars (some (raw_input wire (variables op)))
        ≡ ok (update_input op)
  unfolding unmarshal_update_voyage_input read_field value_at variables
  read_update op fits u =
      rw
        (
          u,
          reads.id op.client_request_id,
          reads.string op.origin,
          reads.string op.dest,
          reads.int op.distance_nm fits.distance_nm,
          reads.int op.fees_minor fits.fees_minor,
          reads.int op.version fits.version,
        )
        refl

  module _ {S : Type 0} (runtime : Runtime S) (resolves : Resolves runtime)
      (client : VoyageClient S) where
    posted_update :
        (op : Operation) (s : S)
        → Fits op
        → is_update op ≡ true
        → (posted scalars wire runtime client op s).0 ≡ []
        → (voyage : Voyage) × ((mutation client op s).0 ≡ ok voyage)
          × ((posted scalars wire runtime client op s).1 ≡ (mutation client op s).1)
    unfolding mutation posted_field
    posted_update op s fits u clean =
        let raw = some (raw_input wire (variables op)) in
        let (errors, left) =
          mutate-update_field runtime resolves scalars client "updateVoyage" raw
            update_voyage_selections s in
        let field : RootField V =
          update_field runtime resolves scalars client "updateVoyage" raw
            update_voyage_selections in
        let known : posted_field wire op ≡ field = rw (u, posted_field) refl in
        let (input, voyage, read, answered, ran) =
          mutation_update_voyage-answered runtime resolves scalars client field s (
            sym errors
            ∙ ap (λ f. (mutate scalars runtime client (f ∷ []) s).0.1) (sym known)
            ∙ clean) in
        let same : input ≡ update_input op =
          ok_injective
            (unmarshal_update_voyage_input scalars (some (raw_input wire (variables op)))) read
            (read_update op fits u) in
        let run : mutation client op s ≡ update_voyage client (update_input op) s =
          rw (u, mutation) refl in
        (
          voyage,
          ap (λ p. p.0) run ∙ ap (λ i. (update_voyage client i s).0) (sym same) ∙ answered,
          ap (λ f. (mutate scalars runtime client (f ∷ []) s).1) known
              ∙ left
              ∙ ran
              ∙ ap (λ i. (update_voyage client i s).1) same
              ∙ sym (ap (λ p. p.1) run),
        )

    posted_create :
        (op : Operation) (s : S)
        → Fits op
        → is_update op ≡ false
        → (posted scalars wire runtime client op s).0 ≡ []
        → (voyage : Voyage) × ((mutation client op s).0 ≡ ok voyage)
          × ((posted scalars wire runtime client op s).1 ≡ (mutation client op s).1)
    unfolding mutation posted_field
    posted_create op s fits u clean =
        let raw = some (raw_input wire (variables op)) in
        let (errors, left) =
          mutate-create_field runtime resolves scalars client "createVoyage" raw
            create_voyage_selections s in
        let field : RootField V =
          create_field runtime resolves scalars client "createVoyage" raw
            create_voyage_selections in
        let known : posted_field wire op ≡ field = rw (u, posted_field) refl in
        let (input, payload, read, answered, ran) =
          mutation_create_voyage-answered runtime resolves scalars client field s (
            sym errors
            ∙ ap (λ f. (mutate scalars runtime client (f ∷ []) s).0.1) (sym known)
            ∙ clean) in
        let same : input ≡ create_input op =
          ok_injective
            (unmarshal_create_voyage_input scalars (some (raw_input wire (variables op)))) read
            (read_create op fits) in
        let run : mutation client op s ≡ (
            let (answer, s') = create_voyage client (create_input op) s in
            (answered_voyage answer, s')) =
          rw (u, mutation) refl in
        (
          payload.voyage,
          ap (λ p. p.0) run
              ∙ ap (λ i. answered_voyage (create_voyage client i s).0) (sym same)
              ∙ ap answered_voyage answered,
          ap (λ f. (mutate scalars runtime client (f ∷ []) s).1) known
              ∙ left
              ∙ ran
              ∙ ap (λ i. (create_voyage client i s).1) same
              ∙ sym (ap (λ p. p.1) run),
        )

    -- A response without errors to the post of an operation, whose numbers are int64, means that the gateway ran the resolver of the operation's kind once, on the operation's
    -- own fields, that the resolver answered without an error, and that nothing else changed the state; if the runtime resolves fields as gqlgen documents, and its scalars read what the post carries.
    pub posted-answered :
        (op : Operation) (s : S)
        → Fits op
        → (posted scalars wire runtime client op s).0 ≡ []
        → (voyage : Voyage) × ((mutation client op s).0 ≡ ok voyage)
          × ((posted scalars wire runtime client op s).1 ≡ (mutation client op s).1)
    posted-answered op s fits clean = elim (Bool-cases (is_update op)) [
      | inl u ↦ posted_update op s fits u clean
      | inr u ↦ posted_create op s fits u clean
    ]
