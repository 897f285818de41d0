-- ===== src/Repository/Estimates.antt =====
-- The versioned idempotent upsert of an estimate.
use mathlib.Core.Option
use maritime_test_lab.Prelude.{
  ℕ, String, false, Option, none, some, List, [], ◌∷◌, if◌then◌else◌, eq_iff, ◌&&◌, ◌≡◌, ◌≢◌, refl,
  sym, arith, Option-cases, inl, inr, ap, ok, ◌∙◌,
}
use maritime_test_lab.Prelude.Int.{ℤ, eqb_ℤ, eqb_ℤ_iff}
use maritime_test_lab.Repository.{
  Row, State, Env, find, update_where, first_where, takes_estimate, set_estimate, is_distinct,
  upsert_estimate, committed, rolled_back,
}
use maritime_test_lab.Repository.Rows.{
  find-update_where, find_key, Distinct, first_where-find, update_where-none, kept_lands,
}

abbrev pub with_estimate : ℤ → ℤ → Row → Row
with_estimate version amount r =
    if eqb_ℤ r.version version && is_distinct r.estimate_minor amount
    then set_estimate amount r
    else r

abbrev answer : ℤ → ℤ → Option Row → Option ℕ
answer version amount none = none
answer version amount (some r) =
    if eqb_ℤ r.version version && is_distinct r.estimate_minor amount
    then some r.created_at
    else none

module _ (id : String) (version amount : ℤ) (rows : List Row) where
  this_key :
      find id (update_where (takes_estimate id version amount) (set_estimate amount) rows)
      ≡ Option.map (with_estimate version amount) (find id rows)
  this_key =
      rw
        (find-update_where (takes_estimate id version amount) (set_estimate amount) (λ r. refl) id
          rows)
        (on (find id rows) refl)
    where
      on :
          (o : Option Row)
          → find id rows ≡ o
          → Option.map
              (λ r. if takes_estimate id version amount r then set_estimate amount r else r)
              o
            ≡ Option.map (with_estimate version amount) o
      on none e = refl
      on (some r) e = ground (arith, find_key id rows r e, eq_iff r.client_request_id id)

  first_answer :
      Distinct rows
      → Option.map (λ r. r.created_at) (first_where (takes_estimate id version amount) rows)
        ≡ answer version amount (find id rows)
  first_answer d = rw (first_where-find id version amount rows d) (on (find id rows) refl)
    where
      on :
          (o : Option Row)
          → find id rows ≡ o
          → Option.map
              (λ (r : Row). r.created_at)
              (elim o [
                | none ↦ none
                | some r ↦ if takes_estimate id version amount r then some r else none
              ])
            ≡ answer version amount o
      on none e = refl
      on (some r) e = ground (arith, find_key id rows r e, eq_iff r.client_request_id id)

  other_key :
      (j : String)
      → id ≢ j
      → find j (update_where (takes_estimate id version amount) (set_estimate amount) rows)
        ≡ find j rows
  other_key j h =
      rw
        (find-update_where (takes_estimate id version amount) (set_estimate amount) (λ r. refl) j
          rows)
        (on (find j rows) refl)
    where
      on :
          (o : Option Row)
          → find j rows ≡ o
          → Option.map
              (λ r. if takes_estimate id version amount r then set_estimate amount r else r)
              o
            ≡ o
      on none e = refl
      on (some r) e = ground (arith, find_key j rows r e, eq_iff r.client_request_id id)

module _ (env : Env) (id : String) (version amount : ℤ) (s : State)
    (runs : env.query_fails ≡ false) where
  upsert_state :
      env.commit ≢ rolled_back
      → (upsert_estimate env id version amount s).1 ≡ record s {
        db = record s.db {
          voyages = update_where (takes_estimate id version amount) (set_estimate amount) s.voyages;
        };
      }
  unfolding upsert_estimate
  upsert_state lands =
      elim (Option-cases (first_where (takes_estimate id version amount) s.voyages)) [
        | inl e ↦
            rw (runs, e)
              (ap (λ rows. record s { db = record s.db { voyages = rows } })
                (sym (update_where-none _ (set_estimate amount) s.voyages e)))
        | inr (r, e) ↦ rw (runs, e) (kept_lands env.commit s _ lands)
      ]

  upsert_answer :
      env.commit ≡ committed
      → (upsert_estimate env id version amount s).0
        ≡ ok (
            Option.map
              (λ r. r.created_at)
              (first_where (takes_estimate id version amount) s.voyages))
  unfolding upsert_estimate
  upsert_answer done =
      elim (Option-cases (first_where (takes_estimate id version amount) s.voyages)) [
        | inl e ↦ rw (runs, e, done) refl
        | inr (r, e) ↦ rw (runs, e, done) refl
      ]

  -- An upsert whose statement runs and commits writes the amount into the row of its voyage exactly when that row is at the priced version and does not hold the amount yet,
  -- answers with the row's created_at in that case and with no-op in every other (an unknown voyage, another version, the same amount), and
  -- changes no other row and nothing of the outbox.
  pub upsert_estimate-exact :
      (j : String)
      → env.commit ≡ committed
      → Distinct s.voyages
      → ((upsert_estimate env id version amount s).0
          ≡ ok (answer version amount (find id s.voyages)))
        × (find id (upsert_estimate env id version amount s).1.voyages
            ≡ Option.map (with_estimate version amount) (find id s.voyages))
        × (id ≢ j → find j (upsert_estimate env id version amount s).1.voyages ≡ find j s.voyages)
        × ((upsert_estimate env id version amount s).1.outbox ≡ s.outbox)
  upsert_estimate-exact j done d =
      let lands : env.commit ≢ rolled_back = λ h. cc in
      (
        upsert_answer done ∙ ap ok (first_answer id version amount s.voyages d),
        rw (upsert_state lands) (this_key id version amount s.voyages),
        λ h. rw (upsert_state lands) (other_key id version amount s.voyages j h),
        rw (upsert_state lands) refl,
      )

already :
    (id : String) (version amount : ℤ) (rows : List Row)
    → update_where
        (takes_estimate id version amount)
        (set_estimate amount)
        (update_where (takes_estimate id version amount) (set_estimate amount) rows)
      ≡ update_where (takes_estimate id version amount) (set_estimate amount) rows
unfolding update_where
already id version amount [] = refl
already id version amount (r ∷ rows) =
    ground (arith, already id version amount rows, (eqb_ℤ_iff amount amount).1 refl)

no_more :
    (id : String) (version amount : ℤ) (rows : List Row)
    → first_where
        (takes_estimate id version amount)
        (update_where (takes_estimate id version amount) (set_estimate amount) rows)
      ≡ none
unfolding update_where first_where
no_more id version amount [] = refl
no_more id version amount (r ∷ rows) =
    ground (arith, no_more id version amount rows, (eqb_ℤ_iff amount amount).1 refl)

no_op :
    (env : Env) (id : String) (version amount : ℤ) (s : State)
    → env.query_fails ≡ false
    → env.commit ≡ committed
    → first_where (takes_estimate id version amount) s.voyages ≡ none
    → upsert_estimate env id version amount s ≡ (ok none, s)
unfolding upsert_estimate
no_op env id version amount s h done e = rw (h, e, done) refl

-- An estimate that is delivered again behind one that landed, also where the answer of that was lost, is a no-op: it is answered as not applied and leaves the state as it was.
pub upsert_estimate_redelivered :
    (env env' : Env) (id : String) (version amount : ℤ) (s : State)
    → env.query_fails ≡ false
    → env.commit ≢ rolled_back
    → env'.query_fails ≡ false
    → env'.commit ≡ committed
    → upsert_estimate env' id version amount (upsert_estimate env id version amount s).1
      ≡ (ok none, (upsert_estimate env id version amount s).1)
upsert_estimate_redelivered env env' id version amount s h lands h' done' =
    no_op env' id version amount (upsert_estimate env id version amount s).1 h' done'
      (rw (upsert_state env id version amount s h lands) (no_more id version amount s.voyages))
