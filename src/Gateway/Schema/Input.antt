-- ===== src/Gateway/Schema/Input.antt =====
-- gen/graphql/generated.go: the readers of the two inputs.
use maritime_test_lab.Prelude.{
  String, Option, none, some, List, [], ◌∷◌, Result, ok, ◌>>=◌, if◌then◌else◌, str_eq,
}
use maritime_test_lab.Prelude.Int.{ℤ, pos}
use maritime_test_lab.Gateway.Resolvers.{CreateVoyageInput, UpdateVoyageInput}

-- what `graphql.UnmarshalID`, `UnmarshalString` and `UnmarshalInt` answer for a raw value
pub record Scalars (V : Type 0) : Type 0 where
  pub unmarshal_id : V → Result String String
  pub unmarshal_string : V → Result String String
  pub unmarshal_int : V → Result String ℤ

-- a `map[string]any`
abbrev pub RawMap : Type 0 → Type 0
RawMap V = List (String × V)

unfoldable pub value_at {ℓ} : {V : Type ℓ} → String → List (String × V) → Option V
value_at key [] = none
value_at key ((k, v) ∷ rest) = if str_eq k key then some v else value_at key rest

-- a key that is absent leaves the field as it is
unfoldable pub read_field :
    {V A : Type 0} → (V → Result String A) → String → RawMap V → A → Result String A
unfolding value_at
read_field unmarshal key raw zero = elim (value_at key raw) [
  | none ↦ ok zero
  | some v ↦ unmarshal v
]

abbrev pub zero_create_input : CreateVoyageInput
zero_create_input = record {
  client_request_id = "";
  origin = "";
  dest = "";
  distance_nm = pos 0;
  fees_minor = pos 0;
}

abbrev pub zero_update_input : UpdateVoyageInput
zero_update_input = record {
  client_request_id = "";
  origin = "";
  dest = "";
  distance_nm = pos 0;
  fees_minor = pos 0;
  version = pos 0;
}

module _ {V : Type 0} (scalars : Scalars V) where
  -- `none` is a nil object
  unfoldable pub unmarshal_create_voyage_input : Option (RawMap V) → Result String CreateVoyageInput
  unfolding read_field
  unmarshal_create_voyage_input none = ok zero_create_input
  unmarshal_create_voyage_input (some raw) = do
    client_request_id ← read_field scalars.unmarshal_id "clientRequestId" raw ""
    origin ← read_field scalars.unmarshal_string "origin" raw ""
    dest ← read_field scalars.unmarshal_string "dest" raw ""
    distance_nm ← read_field scalars.unmarshal_int "distanceNm" raw (pos 0)
    fees_minor ← read_field scalars.unmarshal_int "feesMinor" raw (pos 0)
    ok (record {
      client_request_id = client_request_id;
      origin = origin;
      dest = dest;
      distance_nm = distance_nm;
      fees_minor = fees_minor;
    })

  unfoldable pub unmarshal_update_voyage_input : Option (RawMap V) → Result String UpdateVoyageInput
  unfolding read_field
  unmarshal_update_voyage_input none = ok zero_update_input
  unmarshal_update_voyage_input (some raw) = do
    client_request_id ← read_field scalars.unmarshal_id "clientRequestId" raw ""
    origin ← read_field scalars.unmarshal_string "origin" raw ""
    dest ← read_field scalars.unmarshal_string "dest" raw ""
    distance_nm ← read_field scalars.unmarshal_int "distanceNm" raw (pos 0)
    fees_minor ← read_field scalars.unmarshal_int "feesMinor" raw (pos 0)
    version ← read_field scalars.unmarshal_int "version" raw (pos 0)
    ok (record {
      client_request_id = client_request_id;
      origin = origin;
      dest = dest;
      distance_nm = distance_nm;
      fees_minor = fees_minor;
      version = version;
    })
