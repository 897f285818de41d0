-- ===== src/Gateway/Schema/Object.antt =====
-- gen/graphql/generated.go: the objects of a response.
use maritime_test_lab.Prelude.{
  String, Bool, true, false, Option, none, some, List, [], ◌∷◌, Result, if◌then◌else◌, str_eq,
}
use maritime_test_lab.Prelude.Int.{ℤ}
use maritime_test_lab.Gateway.Resolvers.{Voyage, CreateVoyagePayload, Error}

-- graphql.Marshaler: a value of the response, and the entries of an object in their order
mutual
  pub data Marshaler : Type 0 where
    null : Marshaler
    required_null : Marshaler
    text : String → Marshaler
    int : ℤ → Marshaler
    boolean : Bool → Marshaler
    object : Entries → Marshaler

  pub data Entries : Type 0 where
    no_entries : Entries
    entry : String → Marshaler → Entries → Entries

-- a selected field, with what is selected of its value
pub record Field (A : Type 0) : Type 0 where
  pub alias : String
  pub name : String
  pub selections : A

-- the fields that are selected of a voyage, and of a payload
abbrev pub Leaf : Type 0
Leaf = Field (Unit {0})

abbrev pub Branch : Type 0
Branch = Field (List Leaf)

-- `out.Values[i] == graphql.Null` for some i
abbrev pub has_null : Entries → Bool
has_null no_entries = false
has_null (entry alias null rest) = true
has_null (entry alias m rest) = has_null rest

-- the object, or null for one with invalid fields
abbrev pub answer_fields : Entries → Marshaler
answer_fields entries = if has_null entries then null else object entries

-- The loop over the selected fields; `none` is the panic of an unknown field.
unfoldable pub collect :
    {A : Type 0} → (String → A → Option Marshaler) → List (Field A) → Option Entries
collect value [] = some no_entries
collect value (f ∷ fields) =
    let rest = collect value fields in
    elim (value f.name f.selections) [
      | none ↦ none
      | some m ↦ elim rest [ none ↦ none | some entries ↦ some (entry f.alias m entries) ]
    ]

abbrev pub answered : Option Entries → Option Marshaler
answered none = none
answered (some entries) = some (answer_fields entries)

-- What gqlgen's runtime does with a field. `plain a m` is what `graphql.ResolveField` answers for a field whose resolver reads the value `a`, and
-- `resolve args run m` what it answers, reports as errors and does for a field with arguments and a resolver that may fail; `m` marshals
-- the value that was resolved, and may panic. `optional` is `resolve` for a field that may be null.
pub record Runtime (S : Type 0) : Type 1 where
  pub plain : {A : Type 0} → A → (A → Option Marshaler) → Marshaler
  pub resolve :
      {I : Type 0} {A : Type 0}
      → Result String I
      → (I → S → Result Error A × S)
      → (A → Option Marshaler)
      → S
      → (Marshaler × List String) × S
  pub optional :
      {I : Type 0} {A : Type 0}
      → Result String I
      → (I → S → Result Error A × S)
      → (A → Option Marshaler)
      → S
      → (Marshaler × List String) × S

module _ {S : Type 0} (runtime : Runtime S) where
  -- the fields of a voyage
  unfoldable pub voyage_client_request_id : Voyage → Marshaler
  voyage_client_request_id v = runtime.plain v.client_request_id (λ x. some (text x))

  unfoldable pub voyage_origin : Voyage → Marshaler
  voyage_origin v = runtime.plain v.origin (λ x. some (text x))

  unfoldable pub voyage_dest : Voyage → Marshaler
  voyage_dest v = runtime.plain v.dest (λ x. some (text x))

  unfoldable pub voyage_distance_nm : Voyage → Marshaler
  voyage_distance_nm v = runtime.plain v.distance_nm (λ x. some (int x))

  unfoldable pub voyage_fees_minor : Voyage → Marshaler
  voyage_fees_minor v = runtime.plain v.fees_minor (λ x. some (int x))

  unfoldable pub voyage_version : Voyage → Marshaler
  voyage_version v = runtime.plain v.version (λ x. some (int x))

  unfoldable pub voyage_estimate_minor : Voyage → Marshaler
  voyage_estimate_minor v = runtime.plain v.estimate_minor (λ x. some (int x))

  -- the switch of `_Voyage`; `none` is its panic
  unfoldable pub voyage_value : Voyage → String → Option Marshaler
  unfolding voyage_client_request_id voyage_origin voyage_dest voyage_distance_nm voyage_fees_minor
      voyage_version voyage_estimate_minor
  voyage_value v name =
      if str_eq name "__typename"
      then some (text "Voyage")
      else if str_eq name "clientRequestId"
      then some (voyage_client_request_id v)
      else if str_eq name "origin"
      then some (voyage_origin v)
      else if str_eq name "dest"
      then some (voyage_dest v)
      else if str_eq name "distanceNm"
      then some (voyage_distance_nm v)
      else if str_eq name "feesMinor"
      then some (voyage_fees_minor v)
      else if str_eq name "version"
      then some (voyage_version v)
      else if str_eq name "estimateMinor"
      then some (voyage_estimate_minor v)
      else none

  -- `_Voyage`
  unfoldable pub marshal_voyage : {A : Type 0} → List (Field A) → Voyage → Option Marshaler
  unfolding collect voyage_value
  marshal_voyage fields v = answered (collect (λ name rest. voyage_value v name) fields)

  -- `marshalOVoyage2…`: a nil voyage is null
  unfoldable pub marshal_optional_voyage :
      {A : Type 0} → List (Field A) → Option Voyage → Option Marshaler
  unfolding marshal_voyage
  marshal_optional_voyage fields none = some null
  marshal_optional_voyage fields (some v) = marshal_voyage fields v

  -- the fields of a payload
  unfoldable pub payload_voyage : CreateVoyagePayload → List Leaf → Marshaler
  unfolding marshal_voyage
  payload_voyage p fields = runtime.plain p.voyage (marshal_voyage fields)

  unfoldable pub payload_provisional_estimate_minor : CreateVoyagePayload → Marshaler
  payload_provisional_estimate_minor p =
      runtime.plain p.provisional_estimate_minor (λ x. some (int x))

  unfoldable pub payload_estimate_pending : CreateVoyagePayload → Marshaler
  payload_estimate_pending p = runtime.plain p.estimate_pending (λ x. some (boolean x))

  -- the switch of `_CreateVoyagePayload`
  unfoldable pub payload_value : CreateVoyagePayload → String → List Leaf → Option Marshaler
  unfolding payload_voyage payload_provisional_estimate_minor payload_estimate_pending
  payload_value p name fields =
      if str_eq name "__typename"
      then some (text "CreateVoyagePayload")
      else if str_eq name "voyage"
      then some (payload_voyage p fields)
      else if str_eq name "provisionalEstimateMinor"
      then some (payload_provisional_estimate_minor p)
      else if str_eq name "estimatePending"
      then some (payload_estimate_pending p)
      else none

  -- `_CreateVoyagePayload`
  unfoldable pub marshal_payload : List Branch → CreateVoyagePayload → Option Marshaler
  unfolding collect payload_value
  marshal_payload fields p = answered (collect (payload_value p) fields)
