-- ===== src/Serde/Laws.antt =====
-- Framing and decoding.
use maritime_test_lab.Prelude.{
  ℕ, ◌+◌, ◌*◌, ◌^◌, ◌<◌, Option, none, some, List, ◌∷◌, ◌++◌, ok, ◌≡◌, arith, Option-cases, inl,
  inr,
}
use maritime_test_lab.Serde.{Serde, Codec, lookup, encode, decode, put_uint32, word32}

-- what a codec promises: what it marshals it reads back
abbrev pub RoundTrips : {A : Type 0} → Codec A → Type 0
RoundTrips {A} c = (v : A) (body : List ℕ) → c.marshal v ≡ some body → c.unmarshal body ≡ some v

-- the schema id that a frame carries
abbrev pub frame_id : List ℕ → Option ℕ
frame_id (m ∷ a ∷ b ∷ c ∷ d ∷ body) = some (a * 2 ^ 24 + b * 2 ^ 16 + c * 2 ^ 8 + d)
frame_id _ = none

module _ {A : Type 0} (c : Codec A) where
  encoded :
      (s : Serde) (v : A) (frame : List ℕ)
      → encode c s v ≡ ok frame
      → (id : ℕ) × (body : List ℕ) × (lookup c.name s ≡ some id)
        × (c.marshal v ≡ some body)
        × (frame ≡ 0 ∷ put_uint32 id ++ body)
  unfolding encode
  encoded s v frame e = elim (Option-cases (lookup c.name s)) [
    | inl h ↦ ground arith
    | inr (id, h) ↦ elim (Option-cases (c.marshal v)) [
      | inl m ↦ ground arith
      | inr (body, m) ↦ (id, body, h, m, ground arith)
    ]
  ]

  -- A consumer decodes what a producer encoded, whatever schema ids the registry gave the two, if both registered the type and the codec round-trips.
  pub decode-encode :
      (producer consumer : Serde) (v : A) (frame : List ℕ) (id : ℕ)
      → RoundTrips c
      → encode c producer v ≡ ok frame
      → lookup c.name consumer ≡ some id
      → decode c consumer frame ≡ ok v
  unfolding decode put_uint32
  decode-encode producer consumer v frame id law e known =
      let (id', body, h, m, f) = encoded producer v frame e in rw f (ground (arith, law v body m))

  -- The frame carries the producer's schema id, which is below 2 ^ 32, in its four bytes after the magic byte, each below 256.
  pub frame_id-encode :
      (s : Serde) (v : A) (frame : List ℕ) (id : ℕ)
      → encode c s v ≡ ok frame
      → lookup c.name s ≡ some id
      → id < word32
      → frame_id frame ≡ some id
  unfolding put_uint32
  frame_id-encode s v frame id e known small =
      let (id', body, h, m, f) = encoded s v frame e in rw f (ground (arith))
