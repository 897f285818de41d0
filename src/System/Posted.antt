-- ===== src/System/Posted.antt =====
-- A post of clients/onboard-sync as the gateway reads it: the documents of clients/onboard-sync/graphql, the variables of
-- graphqltransport/transport.go after the two JSON codecs, and the schema of gen/graphql/generated.go.
pub mod Laws
pub mod Responses
pub mod ReadBack
use maritime_test_lab.Prelude.{
  String, Bool, true, false, Option, none, some, List, [], ◌∷◌, Result, ok, err, ◌≡◌, refl, arith,
  sym, ap, ◌∙◌, subst, Bool-cases, inl, inr, str_eq, if◌then◌else◌,
}
use maritime_test_lab.Prelude.Int.{ℤ, pos, IsInt64}
use maritime_test_lab.Gateway.Resolvers.{
  Voyage, CreateVoyageInput, UpdateVoyageInput, VoyageClient, Error, create_voyage, update_voyage,
}
use maritime_test_lab.Gateway.Schema.Input.{
  Scalars, RawMap, value_at, read_field, unmarshal_create_voyage_input,
  unmarshal_update_voyage_input,
}
use maritime_test_lab.Gateway.Schema.Object.{Field, Leaf, Branch, Runtime}
use maritime_test_lab.Gateway.Schema.Root.{
  RootField, mutate, mutation_create_voyage, mutation_update_voyage,
}
use maritime_test_lab.Gateway.Schema.Laws.{
  Resolves, mutation_create_voyage-answered, mutation_update_voyage-answered, create_field,
  update_field, mutate-create_field, mutate-update_field,
}
use maritime_test_lab.Onboard.Operation.{Operation, kind_update}
use maritime_test_lab.Onboard.Transport.{Variables, variables}
use maritime_test_lab.System.Acknowledged.{
  mutation, is_update, create_input, update_input, answered_voyage,
}

-- what a text and a number of the variables are after encoding and decoding
pub record Wire (V : Type 0) : Type 0 where
  pub text : String → V
  pub number : ℤ → V

abbrev pub version_entry : {V : Type 0} → Wire V → Option ℤ → RawMap V
version_entry wire none = []
version_entry wire (some n) = ("version", wire.number n) ∷ []

-- the value of `$input`
abbrev pub raw_input : {V : Type 0} → Wire V → Variables → RawMap V
raw_input wire v =
    ("clientRequestId", wire.text v.client_request_id)
    ∷ ("origin", wire.text v.origin)
    ∷ ("dest", wire.text v.dest)
    ∷ ("distanceNm", wire.number v.distance_nm)
    ∷ ("feesMinor", wire.number v.fees_minor)
    ∷ version_entry wire v.version

abbrev leaf : String → Leaf
leaf name = record { alias = name; name = name; selections = tt }

abbrev branch : String → List Leaf → Branch
branch name leaves = record { alias = name; name = name; selections = leaves }

-- what create_voyage.graphql selects of the voyage
abbrev pub created_leaves : List Leaf
created_leaves =
    leaf "clientRequestId"
    ∷ leaf "origin"
    ∷ leaf "dest"
    ∷ leaf "version"
    ∷ leaf "estimateMinor"
    ∷ []

-- create_voyage.graphql and update_voyage.graphql
abbrev pub create_voyage_selections : List Branch
create_voyage_selections =
    branch "voyage" created_leaves
    ∷ branch "provisionalEstimateMinor" []
    ∷ branch "estimatePending" []
    ∷ []

abbrev pub update_voyage_selections : List Branch
update_voyage_selections =
    branch "clientRequestId" [] ∷ branch "version" [] ∷ branch "estimateMinor" [] ∷ []

-- the field of the document that `query` picks for an operation
unfoldable pub posted_field : {V : Type 0} → Wire V → Operation → RootField V
unfolding variables
posted_field wire op =
    if is_update op
    then record {
      alias = "updateVoyage";
      name = "updateVoyage";
      input = some (raw_input wire (variables op));
      selections = update_voyage_selections;
    }
    else record {
      alias = "createVoyage";
      name = "createVoyage";
      input = some (raw_input wire (variables op));
      selections = create_voyage_selections;
    }

-- the ranges of the fields of `domain.Operation`
pub record Fits (op : Operation) : Type 0 where
  pub distance_nm : IsInt64 op.distance_nm
  pub fees_minor : IsInt64 op.fees_minor
  pub version : IsInt64 op.version

-- the scalars read what the wire carries
pub record Reads {V : Type 0} (scalars : Scalars V) (wire : Wire V) : Type 0 where
  pub id : (t : String) → scalars.unmarshal_id (wire.text t) ≡ ok t
  pub string : (t : String) → scalars.unmarshal_string (wire.text t) ≡ ok t
  pub int : (n : ℤ) → IsInt64 n → scalars.unmarshal_int (wire.number n) ≡ ok n

-- the errors of the response, and the state behind a post that reached the gateway
abbrev pub posted :
    {V S : Type 0}
    → Scalars V
    → Wire V
    → Runtime S
    → VoyageClient S
    → Operation
    → S
    → List String × S
posted scalars wire runtime client op s =
    let ((m, errors), t) = mutate scalars runtime client (posted_field wire op ∷ []) s in
    (errors, t)
