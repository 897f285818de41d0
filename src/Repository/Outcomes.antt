-- ===== src/Repository/Outcomes.antt =====
-- The states that a statement may leave, whatever fails: the one before it, or the one that it writes.
use maritime_test_lab.Prelude.{String, Bool-cases, Option-cases, inl, inr}
use maritime_test_lab.Prelude.Int.{ℤ}
use maritime_test_lab.Voyage.{Voyage}
use maritime_test_lab.Repository.{
  State, Env, update, update_higher_wins, update_where, takes_estimate, set_estimate,
  upsert_estimate, first_where,
}
use maritime_test_lab.Repository.Rows.{kept_keeps}

module _ {κ} (p : State → Type κ) (env : Env) (s : State) (before : p s) where
  pub update_outcome :
      (v : Voyage)
      → p (record s { db = record s.db { voyages = update_higher_wins v s.voyages } })
      → p (update env v s).1
  unfolding update
  update_outcome v after = elim (Bool-cases env.exec_fails) [
    | inl e ↦ rw e before
    | inr e ↦ rw e (kept_keeps p env.commit s _ before after)
  ]

  pub upsert_outcome :
      (id : String) (version amount : ℤ)
      → p (record s {
        db = record s.db {
          voyages = update_where (takes_estimate id version amount) (set_estimate amount) s.voyages;
        };
      })
      → p (upsert_estimate env id version amount s).1
  unfolding upsert_estimate
  upsert_outcome id version amount after = elim (Bool-cases env.query_fails) [
    | inl e ↦ rw e before
    | inr e ↦ elim (Option-cases (first_where (takes_estimate id version amount) s.voyages)) [
      | inl f ↦ rw (e, f) before
      | inr (r, f) ↦ rw (e, f) (kept_keeps p env.commit s _ before after)
    ]
  ]
