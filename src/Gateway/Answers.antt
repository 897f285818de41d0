-- ===== src/Gateway/Answers.antt =====
-- A mutation that the gateway answers without an error is a write that the voyage service's repository acknowledged.
use maritime_test_lab.Prelude.{
  ok, ◌≡◌, arith, Bool-cases, Option-cases, Result-cases, inl, inr, str_eq,
}
use maritime_test_lab.Voyage.{Voyage, Estimator, validate}
use maritime_test_lab.Repository
use maritime_test_lab.Repository.{Env, State, OutboxEncoder}
use maritime_test_lab.VoyageService.Server.{requested, written, after_create, found_or}
use maritime_test_lab.VoyageService.Server
use maritime_test_lab.Gateway.Resolvers.{
  CreateVoyageInput, CreateVoyagePayload, UpdateVoyageInput, create_voyage, update_voyage,
  create_request, update_message,
}
use maritime_test_lab.Gateway.Resolvers
use maritime_test_lab.Gateway.Laws.{over}

-- the voyages that the two mutations write
abbrev pub creates : CreateVoyageInput → Voyage
creates input = requested (create_request input)

abbrev pub updates : UpdateVoyageInput → Voyage
updates input = written (update_message input)

module _ (encode : OutboxEncoder) (estimator : Estimator) (env : Env) where
  pub create_voyage-create :
      (input : CreateVoyageInput) (s : State) (payload : CreateVoyagePayload)
      → (create_voyage (over encode estimator env) input s).0 ≡ ok payload
      → (c : Voyage) × ((Repository.create encode env (creates input) s).0 ≡ ok c)
        × ((create_voyage (over encode estimator env) input s).1
            ≡ (Repository.create encode env (creates input) s).1)
  unfolding create_voyage Server.create_voyage
  create_voyage-create input s payload h = elim (Bool-cases (str_eq input.client_request_id "")) [
    | inl e ↦ ground arith
    | inr e ↦ elim (Option-cases (validate (creates input))) [
      | inr (x, v) ↦ ground arith
      | inl v ↦ elim (Result-cases (Repository.create encode env (creates input) s).0) [
        | inr (x, c) ↦ ground arith
        | inl (c, k) ↦ (c, k, ground arith)
      ]
    ]
  ]

  pub update_voyage-update :
      (input : UpdateVoyageInput) (s : State) (voyage : Resolvers.Voyage)
      → (update_voyage (over encode estimator env) input s).0 ≡ ok voyage
      → (c : Voyage) × ((Repository.update env (updates input) s).0 ≡ ok c)
        × ((update_voyage (over encode estimator env) input s).1
            ≡ (Repository.update env (updates input) s).1)
  unfolding update_voyage Server.update_voyage
  update_voyage-update input s voyage h = elim (Option-cases (validate (updates input))) [
    | inr (x, v) ↦ ground arith
    | inl v ↦ elim (Result-cases (Repository.update env (updates input) s).0) [
      | inr (x, c) ↦ ground arith
      | inl (c, k) ↦ (c, k, ground arith)
    ]
  ]
