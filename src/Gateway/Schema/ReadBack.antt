-- ===== src/Gateway/Schema/ReadBack.antt =====
-- What the response of a query says of the voyage that its resolver read.
use mathlib.Core.Option.{some-injective}
use maritime_test_lab.Prelude.{
  String, false, Option, none, some, List, [], ◌∷◌, Result, ok, ◌≡◌, refl, arith, ap, ◌∙◌,
  Bool-cases, sym, inl, inr,
}
use maritime_test_lab.Gateway.Resolvers.{Voyage, VoyageClient, Error, voyage}
use maritime_test_lab.Gateway.Schema.Input.{Scalars}
use maritime_test_lab.Gateway.Schema.Object.{
  Marshaler, object, no_entries, entry, Leaf, Runtime, marshal_voyage, marshal_optional_voyage,
  answer_fields, answered, has_null, Entries,
}
use maritime_test_lab.Gateway.Schema.Query.{
  QueryField, Answer, query_voyage, query_voyage_args, query_value, query_values, query,
  has_required_null,
}

-- What gqlgen documents of a field that may be null: what was resolved is marshalled and reported without an error.
pub record Answers {S : Type 0} (runtime : Runtime S) : Type 1 where
  pub answers :
      {I : Type 0} {A : Type 0} (i : I) (run : I → S → Result Error A × S)
      (m : A → Option Marshaler) (s : S) (a : A) (x : Marshaler)
      → (run i s).0 ≡ ok a
      → m a ≡ some x
      → (runtime.optional (ok i) run m s).0 ≡ (x, [])

-- a voyage is answered as null or as an object
has_required_null-answer_fields :
    (alias : String) (entries : Entries)
    → has_required_null (entry alias (answer_fields entries) no_entries) ≡ false
has_required_null-answer_fields alias entries = elim (Bool-cases (has_null entries)) [
  | inl e ↦ rw e refl
  | inr e ↦ rw e refl
]

answered-allowed :
    (alias : String) (r : Option Entries) (m : Marshaler)
    → answered r ≡ some m
    → has_required_null (entry alias m no_entries) ≡ false
answered-allowed alias none m e = ground arith
answered-allowed alias (some entries) m e =
    rw (sym (some-injective _ _ e)) (has_required_null-answer_fields alias entries)

optional-allowed :
    {S : Type 0} (runtime : Runtime S) (alias : String) (selections : List Leaf) (v : Option Voyage)
    (m : Marshaler)
    → marshal_optional_voyage runtime selections v ≡ some m
    → has_required_null (entry alias m no_entries) ≡ false
unfolding marshal_optional_voyage marshal_voyage
optional-allowed runtime alias selections none m e = rw (sym (some-injective _ _ e)) refl
optional-allowed runtime alias selections (some v) m e = answered-allowed alias _ m e

-- the field `voyage` of a query
abbrev pub voyage_field : {V : Type 0} → String → V → List Leaf → QueryField V
voyage_field alias key selections = record {
  alias = alias;
  name = "voyage";
  client_request_id = key;
  selections = selections;
}

module _ {V S : Type 0} (scalars : Scalars V) (runtime : Runtime S) (answers : Answers runtime)
    (client : VoyageClient S) (introspect : QueryField V → Answer) where
  module _ (alias : String) (key : V) (selections : List Leaf) where
    query_voyage-answered :
        (s : S) (id : String) (v : Option Voyage) (m : Marshaler)
        → scalars.unmarshal_id key ≡ ok id
        → voyage client id s ≡ ok v
        → marshal_optional_voyage runtime selections v ≡ some m
        → query_voyage scalars runtime client introspect (voyage_field alias key selections) s
          ≡ (m, [])
    unfolding query_voyage query_voyage_args
    query_voyage-answered s id v m r e k =
        let run : String → S → Result Error (Option Voyage) × S = λ i t. (voyage client i t, t) in
        let marshal = marshal_optional_voyage runtime selections in
        ap (λ args. (runtime.optional args run marshal s).0) r
        ∙ answers.answers id run marshal s v m e k

    pub query-voyage_field :
        (s : S) (id : String) (v : Option Voyage) (m : Marshaler)
        → scalars.unmarshal_id key ≡ ok id
        → voyage client id s ≡ ok v
        → marshal_optional_voyage runtime selections v ≡ some m
        → query scalars runtime client introspect ((voyage_field alias key selections, s) ∷ [])
          ≡ some (object (entry alias m no_entries), [])
    unfolding query query_values query_value
    query-voyage_field s id v m r e k =
        rw (query_voyage-answered s id v m r e k, optional-allowed runtime alias selections v m k)
          refl
