-- ===== src/Serde.antt =====
-- internal/avroserde/serde.go: Avro bodies in the Confluent frame. The codec (hamba/avro) and the schema
-- registry are not part of the repository, and are parameters.
pub mod Laws
use maritime_test_lab.Prelude.{
  ℕ, suc, zero, ◌+◌, ◌*◌, ◌/◌, ◌%◌, ◌^◌, String, Bool, Option, none, some, List, [], ◌∷◌, ◌++◌, map,
  Result, ok, err, ◌>>◌, if◌then◌else◌, str_eq, ◌==◌, ◌>>=◌,
}

pub data Error : Type 0 where
  not_framed not_registered codec registry : Error

-- an event's type, its schema, and the subject under which the schema is registered
pub record Registration : Type 0 where
  pub subject : String
  pub schema : String
  pub example : String

-- `byType`: the schema id of each type that was registered
abbrev pub Serde : Type 0
Serde = List (String × ℕ)

-- A later registration of the same type replaces an earlier one.
unfoldable pub lookup : String → Serde → Option ℕ
lookup name [] = none
lookup name ((key, id) ∷ rest) = elim (lookup name rest) [
  | some later ↦ some later
  | none ↦ if str_eq key name then some id else none
]

abbrev pub word32 : ℕ
word32 = 2 ^ 32

module _ (create_schema : Registration → Result Error ℕ)
    (parse : String → Result Error (Unit {0})) where
  -- the loop of `New`: register and parse every schema, or fail at the first that fails
  unfoldable pub register_all : List Registration → Result Error Serde
  register_all [] = ok []
  register_all (r ∷ regs) = do
    id ← create_schema r
    parse r.schema
    rest ← register_all regs
    ok ((r.example, id % word32) ∷ rest)

-- `New`, over what `sr.NewClient` answers: a client, by its `CreateSchema`, or an error
unfoldable pub new :
    Result Error (Registration → Result Error ℕ)
    → (String → Result Error (Unit {0}))
    → List Registration
    → Result Error Serde
unfolding register_all
new client parse regs = client >>= λ create_schema. register_all create_schema parse regs

-- `binary.BigEndian.PutUint32`
unfoldable pub put_uint32 : ℕ → List ℕ
put_uint32 n = n / 2 ^ 24 % 256 ∷ n / 2 ^ 16 % 256 ∷ n / 2 ^ 8 % 256 ∷ n % 256 ∷ []

-- what the codec gives for one type
pub record Codec (A : Type 0) : Type 0 where
  pub name : String
  pub marshal : A → Option (List ℕ)
  pub unmarshal : List ℕ → Option A

abbrev magic_byte : ℕ
magic_byte = 0

module _ {A : Type 0} (c : Codec A) where
  unfoldable pub encode : Serde → A → Result Error (List ℕ)
  unfolding put_uint32
  encode s v = elim (lookup c.name s) [
    | none ↦ err not_registered
    | some id ↦ elim (c.marshal v) [
      | none ↦ err codec
      | some body ↦ ok (magic_byte ∷ put_uint32 id ++ body)
    ]
  ]

  unmarshal_body : Serde → List ℕ → Result Error A
  unmarshal_body s body = elim (lookup c.name s) [
    | none ↦ err not_registered
    | some id ↦ elim (c.unmarshal body) [ none ↦ err codec | some v ↦ ok v ]
  ]

  -- `len(b) < 5 || b[0] != magicByte`
  unfoldable pub decode : Serde → List ℕ → Result Error A
  unfolding unmarshal_body
  decode s (b ∷ i0 ∷ i1 ∷ i2 ∷ i3 ∷ body) =
      if b == magic_byte then unmarshal_body s body else err not_framed
  decode s _ = err not_framed
