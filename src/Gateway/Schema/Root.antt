-- ===== src/Gateway/Schema/Root.antt =====
-- gen/graphql/generated.go: the fields of Mutation and Query, and `Exec` for a mutation.
use maritime_test_lab.Prelude.{
  String, Option, none, some, List, [], ◌∷◌, ◌++◌, if◌then◌else◌, str_eq,
}
use maritime_test_lab.Gateway.Resolvers.{VoyageClient, create_voyage, update_voyage}
use maritime_test_lab.Gateway.Schema.Input.{
  Scalars, RawMap, unmarshal_create_voyage_input, unmarshal_update_voyage_input,
}
use maritime_test_lab.Gateway.Schema.Object.{
  Marshaler, Entries, text, no_entries, entry, Branch, Runtime, marshal_voyage, marshal_payload,
  answer_fields,
}

-- a field of a mutation, with the raw value of its argument `input`
pub record RootField (V : Type 0) : Type 0 where
  pub alias : String
  pub name : String
  pub input : Option (RawMap V)
  pub selections : List Branch

-- `none` is the panic of an unknown field
abbrev pub Outcome : Type 0 → Type 0
Outcome S = (Option Marshaler × List String) × S

abbrev pub known : {S : Type 0} → (Marshaler × List String) × S → Outcome S
known ((m, errors), s) = ((some m, errors), s)

module _ {V S : Type 0} (scalars : Scalars V) (runtime : Runtime S) (client : VoyageClient S) where
  -- `_Mutation_createVoyage`, with the arguments that its field context reads
  unfoldable pub mutation_create_voyage : RootField V → S → (Marshaler × List String) × S
  unfolding unmarshal_create_voyage_input create_voyage marshal_payload
  mutation_create_voyage f s =
      runtime.resolve (unmarshal_create_voyage_input scalars f.input) (create_voyage client)
        (marshal_payload runtime f.selections) s

  -- `_Mutation_updateVoyage`
  unfoldable pub mutation_update_voyage : RootField V → S → (Marshaler × List String) × S
  unfolding unmarshal_update_voyage_input update_voyage marshal_voyage
  mutation_update_voyage f s =
      runtime.resolve (unmarshal_update_voyage_input scalars f.input) (update_voyage client)
        (marshal_voyage runtime f.selections) s

  unfoldable pub mutation_value : RootField V → S → Outcome S
  unfolding mutation_create_voyage mutation_update_voyage
  mutation_value f s =
      if str_eq f.name "__typename"
      then ((some (text "Mutation"), []), s)
      else if str_eq f.name "createVoyage"
      then known (mutation_create_voyage f s)
      else if str_eq f.name "updateVoyage"
      then known (mutation_update_voyage f s)
      else ((none, []), s)

  -- The loop of `_Mutation`: one field after the other, whether or not the fields before it failed. A panic leaves it.
  unfoldable pub mutation_values : List (RootField V) → S → (Option Entries × List String) × S
  unfolding mutation_value
  mutation_values [] s = ((some no_entries, []), s)
  mutation_values (f ∷ fields) s =
      let ((value, errors), t) = mutation_value f s in
      let ((rest, more), u) = mutation_values fields t in
      elim value [
        | none ↦ ((none, errors), t)
        | some m ↦ (
          (
            elim rest [ none ↦ none | some entries ↦ some (entry f.alias m entries) ],
            errors ++ more,
          ),
          u,
        )
      ]

  -- `_Mutation`, with the errors of the response
  unfoldable pub mutate : List (RootField V) → S → Outcome S
  unfolding mutation_values
  mutate fields s =
      let ((values, errors), t) = mutation_values fields s in
      ((elim values [ none ↦ none | some entries ↦ some (answer_fields entries) ], errors), t)
