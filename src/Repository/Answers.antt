-- ===== src/Repository/Answers.antt =====
-- What an acknowledged write says of the row of its key.
use mathlib.Core.Option
use maritime_test_lab.Prelude.{none, some, ok, ◌≡◌, arith, sym, ◌∙◌, ap, Option-cases, inl, inr}
use maritime_test_lab.Prelude.Int.{◌≤ℤ◌}
use maritime_test_lab.Voyage.{Voyage}
use maritime_test_lab.Repository.{
  Row, State, Env, OutboxEncoder, find, scan_voyage, create, update, get,
}
use maritime_test_lab.Repository.Creates.{create_stored}
use maritime_test_lab.Repository.Updates.{merge, same_key}

pub create_row :
    (encode : OutboxEncoder) (env : Env) (v c : Voyage) (s : State)
    → (create encode env v s).0 ≡ ok c
    → (r : Row) × (find v.client_request_id (create encode env v s).1.voyages ≡ some r)
create_row encode env v c s e =
    elim (Option-cases (find v.client_request_id (create encode env v s).1.voyages)) [
      | inr (r, f) ↦ (r, f)
      | inl f ↦
          let stored = create_stored encode env v c s e in
          let read : Option.map scan_voyage none ≡ some c =
            sym (ap (Option.map scan_voyage) f) ∙ stored in
          cc
    ]

merge_version : (v : Voyage) (r : Row) → v.version ≤ℤ (merge v r).version
merge_version v r = ground arith

pub update_row :
    (env : Env) (v c : Voyage) (s : State)
    → (update env v s).0 ≡ ok c
    → (r : Row) × (find v.client_request_id (update env v s).1.voyages ≡ some r)
      × (v.version ≤ℤ r.version)
unfolding update get
update_row env v c s e = elim (Option-cases (find v.client_request_id s.voyages)) [
  | inl f ↦ ground (arith, same_key v s.voyages)
  | inr (r, f) ↦ (merge v r, ground (arith, same_key v s.voyages), merge_version v r)
]
