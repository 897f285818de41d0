-- ===== src/Gateway/Schema/Laws.antt =====
-- What the response of a mutation says of its resolvers.
use mathlib.Core.List.{append-nil}
use maritime_test_lab.Prelude.{
  String, Option, List, [], ◌∷◌, Result, ok, err, ◌≡◌, ◌≢◌, refl, Result-cases, inl, inr,
}
use maritime_test_lab.Gateway.Resolvers.{
  Voyage, CreateVoyageInput, CreateVoyagePayload, UpdateVoyageInput, VoyageClient, Error,
  create_voyage, update_voyage,
}
use maritime_test_lab.Gateway.Schema.Input.{
  Scalars, RawMap, unmarshal_create_voyage_input, unmarshal_update_voyage_input,
}
use maritime_test_lab.Gateway.Schema.Object.{
  Marshaler, Branch, Runtime, marshal_voyage, marshal_payload,
}
use maritime_test_lab.Gateway.Schema.Root.{
  RootField, mutation_create_voyage, mutation_update_voyage, mutation_value, mutation_values,
  mutate,
}

-- What gqlgen documents of a field with a resolver: arguments that do not read are reported and nothing runs, an error of the resolver is
-- reported, and the resolver runs once.
pub record Resolves {S : Type 0} (runtime : Runtime S) : Type 1 where
  pub refused :
      {I : Type 0} {A : Type 0} (e : String) (run : I → S → Result Error A × S)
      (m : A → Option Marshaler) (s : S)
      → ((runtime.resolve (err e) run m s).0.1 ≢ []) × ((runtime.resolve (err e) run m s).1 ≡ s)
  pub failed :
      {I : Type 0} {A : Type 0} (i : I) (run : I → S → Result Error A × S)
      (m : A → Option Marshaler) (s : S) (x : Error)
      → (run i s).0 ≡ err x
      → (runtime.resolve (ok i) run m s).0.1 ≢ []
  pub ran :
      {I : Type 0} {A : Type 0} (i : I) (run : I → S → Result Error A × S)
      (m : A → Option Marshaler) (s : S)
      → (runtime.resolve (ok i) run m s).1 ≡ (run i s).1

module _ {S : Type 0} (runtime : Runtime S) (resolves : Resolves runtime) where
  -- a field without errors read its arguments, and its resolver answered without an error
  resolved :
      {I A : Type 0} (args : Result String I) (run : I → S → Result Error A × S)
      (m : A → Option Marshaler) (s : S)
      → (runtime.resolve args run m s).0.1 ≡ []
      → (i : I) × (a : A) × (args ≡ ok i)
        × ((run i s).0 ≡ ok a)
        × ((runtime.resolve args run m s).1 ≡ (run i s).1)
  resolved (err e) run m s clean = absurd ((resolves.refused e run m s).0 clean)
  resolved (ok i) run m s clean = elim (Result-cases (run i s).0) [
    | inr (x, e) ↦ absurd (resolves.failed i run m s x e clean)
    | inl (a, e) ↦ (i, a, refl, e, resolves.ran i run m s)
  ]

  module _ {V : Type 0} (scalars : Scalars V) (client : VoyageClient S) where
    pub mutation_create_voyage-answered :
        (f : RootField V) (s : S)
        → (mutation_create_voyage scalars runtime client f s).0.1 ≡ []
        → (input : CreateVoyageInput) × (payload : CreateVoyagePayload)
          × (unmarshal_create_voyage_input scalars f.input ≡ ok input)
          × ((create_voyage client input s).0 ≡ ok payload)
          × ((mutation_create_voyage scalars runtime client f s).1
              ≡ (create_voyage client input s).1)
    unfolding mutation_create_voyage
    mutation_create_voyage-answered f s clean =
        resolved (unmarshal_create_voyage_input scalars f.input) (create_voyage client)
          (marshal_payload runtime f.selections) s clean

    pub mutation_update_voyage-answered :
        (f : RootField V) (s : S)
        → (mutation_update_voyage scalars runtime client f s).0.1 ≡ []
        → (input : UpdateVoyageInput) × (voyage : Voyage) × (unmarshal_update_voyage_input scalars
              f.input
            ≡ ok input)
          × ((update_voyage client input s).0 ≡ ok voyage)
          × ((mutation_update_voyage scalars runtime client f s).1
              ≡ (update_voyage client input s).1)
    unfolding mutation_update_voyage
    mutation_update_voyage-answered f s clean =
        resolved (unmarshal_update_voyage_input scalars f.input) (update_voyage client)
          (marshal_voyage runtime f.selections) s clean

    -- a mutation of one field is that field
    module _ (alias : String) (input : Option (RawMap V)) (selections : List Branch) where
      abbrev pub create_field : RootField V
      create_field = record {
        alias = alias;
        name = "createVoyage";
        input = input;
        selections = selections;
      }

      abbrev pub update_field : RootField V
      update_field = record {
        alias = alias;
        name = "updateVoyage";
        input = input;
        selections = selections;
      }

      pub mutate-create_field :
          (s : S)
          → ((mutate scalars runtime client (create_field ∷ []) s).0.1
              ≡ (mutation_create_voyage scalars runtime client create_field s).0.1)
            × ((mutate scalars runtime client (create_field ∷ []) s).1
                ≡ (mutation_create_voyage scalars runtime client create_field s).1)
      unfolding mutate mutation_values mutation_value
      mutate-create_field s = (append-nil _, refl)

      pub mutate-update_field :
          (s : S)
          → ((mutate scalars runtime client (update_field ∷ []) s).0.1
              ≡ (mutation_update_voyage scalars runtime client update_field s).0.1)
            × ((mutate scalars runtime client (update_field ∷ []) s).1
                ≡ (mutation_update_voyage scalars runtime client update_field s).1)
      unfolding mutate mutation_values mutation_value
      mutate-update_field s = (append-nil _, refl)
