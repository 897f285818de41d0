-- ===== src/EventReg/Laws.antt =====
-- A serde that knows every event of the program.
use maritime_test_lab.Prelude.{
  ℕ, ◌%◌, ◌<◌, String, some, List, [], ◌∷◌, Result, ok, err, ◌≡◌, ◌≢◌, refl, arith, ◌∙◌, ap,
  Result-cases, inl, inr,
}
use maritime_test_lab.Serde.{
  Registration, Serde, Codec, Error, not_registered, lookup, new, register_all, encode, decode,
  word32,
}
use maritime_test_lab.EventReg.{Schemas, all, voyage_created_type, estimate_ready_type}
use maritime_test_lab.Events.{VoyageCreated, EstimateReady}

known-encode :
    {A : Type 0} (c : Codec A) (serde : Serde) (id : ℕ) (v : A)
    → lookup c.name serde ≡ some id
    → encode c serde v ≢ err not_registered
unfolding encode
known-encode c serde id v e h = ground arith

known-decode :
    {A : Type 0} (c : Codec A) (serde : Serde) (id : ℕ) (frame : List ℕ)
    → lookup c.name serde ≡ some id
    → decode c serde frame ≢ err not_registered
unfolding decode
known-decode c serde id (b ∷ i0 ∷ i1 ∷ i2 ∷ i3 ∷ body) e h = ground arith
known-decode c serde id [] e h = cc
known-decode c serde id (b ∷ []) e h = cc
known-decode c serde id (b ∷ i0 ∷ []) e h = cc
known-decode c serde id (b ∷ i0 ∷ i1 ∷ []) e h = cc
known-decode c serde id (b ∷ i0 ∷ i1 ∷ i2 ∷ []) e h = cc

-- the two events that a serde knows, each under an id below 2 ^ 32
abbrev pub Known : Codec VoyageCreated → Codec EstimateReady → Serde → Type 0
Known created ready serde =
    (a b : ℕ) × (lookup created.name serde ≡ some a)
    × (lookup ready.name serde ≡ some b)
    × (a < word32)
    × (b < word32)
    × ((v : VoyageCreated) → encode created serde v ≢ err not_registered)
    × ((e : EstimateReady) → encode ready serde e ≢ err not_registered)
    × ((frame : List ℕ) → decode created serde frame ≢ err not_registered)
    × ((frame : List ℕ) → decode ready serde frame ≢ err not_registered)

module _ (create_schema : Registration → Result Error ℕ) (parse : String → Result Error (Unit {0}))
    (schemas : Schemas) where
  registered :
      (r : Registration) (regs : List Registration) (serde : Serde)
      → register_all create_schema parse (r ∷ regs) ≡ ok serde
      → (id : ℕ) × (rest : Serde) × (create_schema r ≡ ok id)
        × (register_all create_schema parse regs ≡ ok rest)
        × (serde ≡ (r.example, id % word32) ∷ rest)
  unfolding register_all
  registered r regs serde e = elim (Result-cases (create_schema r)) [
    | inr (x, h) ↦ ground arith
    | inl (id, h) ↦ elim (Result-cases (parse r.schema)) [
      | inr (x, k) ↦ ground arith
      | inl (u, k) ↦ elim (Result-cases (register_all create_schema parse regs)) [
        | inr (x, l) ↦ ground arith
        | inl (rest, l) ↦ (id, rest, h, l, ground arith)
      ]
    ]
  ]

  no_more : (serde : Serde) → register_all create_schema parse [] ≡ ok serde → serde ≡ []
  unfolding register_all
  no_more serde e = ground arith

  -- the loop over both registrations
  register_all-all :
      (serde : Serde)
      → register_all create_schema parse (all schemas) ≡ ok serde
      → (a b : ℕ) × (serde
          ≡ (voyage_created_type, a % word32) ∷ (estimate_ready_type, b % word32) ∷ [])
  unfolding all
  register_all-all serde e =
      let (a, rest, _, more, s) = registered _ _ serde e in
      let (b, last, _, none_left, t) = registered _ [] rest more in
      (
        a,
        b,
        s
            ∙ ap (λ l. (voyage_created_type, a % word32) ∷ l)
                (t ∙ ap (λ l. (estimate_ready_type, b % word32) ∷ l) (no_more last none_left)),
      )

  both_known :
      (a b : ℕ)
      → let serde : Serde =
          (voyage_created_type, a % word32) ∷ (estimate_ready_type, b % word32) ∷ [] in
        (lookup voyage_created_type serde ≡ some (a % word32))
        × (lookup estimate_ready_type serde ≡ some (b % word32))
  unfolding lookup
  both_known a b = (refl, refl)

  register_all-all-Known :
      (serde : Serde) (created : Codec VoyageCreated) (ready : Codec EstimateReady)
      → created.name ≡ voyage_created_type
      → ready.name ≡ estimate_ready_type
      → register_all create_schema parse (all schemas) ≡ ok serde
      → Known created ready serde
  register_all-all-Known serde created ready n m e =
      let (a, b, s) = register_all-all serde e in
      let known : lookup created.name serde ≡ some (a % word32) = rw (n, s) (both_known a b).0 in
      let known' : lookup ready.name serde ≡ some (b % word32) = rw (m, s) (both_known a b).1 in
      (
        a % word32,
        b % word32,
        known,
        known',
        omega arith,
        omega arith,
        λ v. known-encode created serde (a % word32) v known,
        λ v. known-encode ready serde (b % word32) v known',
        λ frame. known-decode created serde (a % word32) frame known,
        λ frame. known-decode ready serde (b % word32) frame known',
      )

-- A serde that `New` built from every registration knows both events, each under an id below 2 ^ 32, so that no value of either is refused as not registered,
-- neither by `Encode` nor by `Decode`.
pub new-all-Known :
    (client : Result Error (Registration → Result Error ℕ))
    (parse : String → Result Error (Unit {0})) (schemas : Schemas) (serde : Serde)
    (created : Codec VoyageCreated) (ready : Codec EstimateReady)
    → created.name ≡ voyage_created_type
    → ready.name ≡ estimate_ready_type
    → new client parse (all schemas) ≡ ok serde
    → Known created ready serde
unfolding new
new-all-Known (err x) parse schemas serde created ready n m e = cc
new-all-Known (ok create_schema) parse schemas serde created ready n m e =
    register_all-all-Known create_schema parse schemas serde created ready n m e
