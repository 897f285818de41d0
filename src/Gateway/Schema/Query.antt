-- ===== src/Gateway/Schema/Query.antt =====
-- gen/graphql/generated.go: the fields of Query, and `Exec` for a query. What introspection answers is a parameter.
use maritime_test_lab.Prelude.{
  String, Bool, true, false, Option, none, some, List, [], ◌∷◌, ◌++◌, Result, if◌then◌else◌, str_eq,
}
use maritime_test_lab.Gateway.Resolvers.{VoyageClient, voyage}
use maritime_test_lab.Gateway.Schema.Input.{Scalars}
use maritime_test_lab.Gateway.Schema.Object.{
  Marshaler, null, required_null, text, object, Entries, no_entries, entry, Leaf, Runtime,
  marshal_optional_voyage,
}

-- a field of a query, with the raw value of its argument `clientRequestId`
pub record QueryField (V : Type 0) : Type 0 where
  pub alias : String
  pub name : String
  pub client_request_id : V
  pub selections : List Leaf

-- what a field answers and reports
abbrev pub Answer : Type 0
Answer = Marshaler × List String

-- `out.Invalids`: a field of Query is counted when it answers `graphql.RequiredNull`
abbrev pub has_required_null : Entries → Bool
has_required_null no_entries = false
has_required_null (entry alias required_null rest) = true
has_required_null (entry alias m rest) = has_required_null rest

module _ {V S : Type 0} (scalars : Scalars V) (runtime : Runtime S) (client : VoyageClient S)
    (introspect : QueryField V → Answer) where
  -- `field_Query_voyage_args`
  unfoldable pub query_voyage_args : QueryField V → Result String String
  query_voyage_args f = scalars.unmarshal_id f.client_request_id

  -- `_Query_voyage`: the resolver reads, and changes nothing
  unfoldable pub query_voyage : QueryField V → S → Answer
  unfolding query_voyage_args voyage marshal_optional_voyage
  query_voyage f s =
      (runtime.optional (query_voyage_args f) (λ id t. (voyage client id t, t))
        (marshal_optional_voyage runtime f.selections) s).0

  -- the switch of `_Query`; `none` is its panic
  unfoldable pub query_value : QueryField V → S → Option Answer
  unfolding query_voyage
  query_value f s =
      if str_eq f.name "__typename"
      then some (text "Query", [])
      else if str_eq f.name "voyage"
      then some (query_voyage f s)
      else if str_eq f.name "__type"
      then some (introspect f)
      else if str_eq f.name "__schema"
      then some (introspect f)
      else none

  -- The fields run concurrently: each stands here with the state that its goroutine reads. The errors are in the order of the fields,
  -- the goroutines report them in any.
  unfoldable pub query_values : List (QueryField V × S) → Option (Entries × List String)
  unfolding query_value
  query_values [] = some (no_entries, [])
  query_values ((f, s) ∷ fields) =
      let rest = query_values fields in
      elim (query_value f s) [
        | none ↦ none
        | some (m, errors) ↦ elim rest [
          | none ↦ none
          | some (entries, more) ↦ some (entry f.alias m entries, errors ++ more)
        ]
      ]

  -- `_Query`, with the errors of the response
  unfoldable pub query : List (QueryField V × S) → Option Answer
  unfolding query_values
  query fields = elim (query_values fields) [
    | none ↦ none
    | some (entries, errors) ↦
        some (if has_required_null entries then null else object entries, errors)
  ]
