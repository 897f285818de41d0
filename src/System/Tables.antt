-- ===== src/System/Tables.antt =====
-- The tables and the broker's log of every state that calls of the services lead to.
use maritime_test_lab.Prelude.{
  ℕ, suc, none, List, [], ◌∷◌, ◌++◌, ◌≡◌, refl, arith, inl, inr, ◌⊎◌, Result-cases, String,
}
use maritime_test_lab.Prelude.Int.{ℤ}
use maritime_test_lab.Money.{Money}
use maritime_test_lab.Serde.{Serde, Codec}
use maritime_test_lab.Serde
use maritime_test_lab.Events.{VoyageCreated, EstimateReady, voyage_created_encoder}
use maritime_test_lab.Kafka.{Record, Produced, Ack, acked, refused, answer_lost}
use maritime_test_lab.Voyage.{Voyage}
use maritime_test_lab.Repository
use maritime_test_lab.Repository.{
  Row, OutboxRow, State, update_higher_wins, is_older, replace, update_where, upsert_estimate,
  takes_estimate, set_estimate, first_where, new_row,
}
use maritime_test_lab.Repository.Rows.{Distinct, Distinct-append, Distinct-update_where}
use maritime_test_lab.Repository.Creates.{create_atomic, event_row}
use maritime_test_lab.Outbox.{PollEnv, Relay}
use maritime_test_lab.Outbox.Order.{Between, Between-append, Between-mono}
use maritime_test_lab.Outbox.Safety.{Logged, Logged-append, flush_safe}
use maritime_test_lab.Estimator.Consumer as Pricing
use maritime_test_lab.Estimator.Consumer.Soundness.{handle-Grows}
use maritime_test_lab.VoyageService.Consumer as Applying
use maritime_test_lab.VoyageService.Consumer.{Site}
use maritime_test_lab.VoyageService.Consumer.Redelivered.{applied_state, applied_log}
use maritime_test_lab.System.Sources.{flush-Steady}
use maritime_test_lab.System.{Step, Reaches, start, relayed}
use maritime_test_lab.Repository.Outcomes.{upsert_outcome, update_outcome}

pub record Orderly (w : Site) : Type 0 where
  pub distinct : Distinct w.state.voyages
  pub between : Between 1 w.state.next_id w.state.outbox
  pub logged : Logged w.log w.state.outbox

start-Orderly : Orderly start
start-Orderly = record { distinct = tt; between = omega arith; logged = tt }

relay-Orderly : (env : PollEnv) (w : Site) → Orderly w → Orderly (relayed env w)
relay-Orderly env w o =
    let s : Relay = record { db = w.state.db; log = w.log } in
    let (logged, moved) = flush_safe env s 1 w.state.next_id o.between o.logged in
    let (between, same) = flush-Steady w.state.next_id w.state.next_id env s (o.between, refl) in
    record { distinct = rw moved.voyages o.distinct; between = rw same between; logged = logged }

Logged-unstamped :
    (log : List Produced) (rows : List OutboxRow) (r : OutboxRow)
    → r.published_at ≡ none
    → Logged log rows
    → Logged log (rows ++ r ∷ [])
Logged-unstamped log [] r e h = (λ f. ground (arith, e), tt)
Logged-unstamped log (q ∷ rows) r e h = (h.0, Logged-unstamped log rows r e h.1)

update-Orderly :
    (env : Repository.Env) (v : Voyage) (w : Site)
    → Orderly w
    → Orderly (record w { state = (Repository.update env v w.state).1 })
unfolding update_higher_wins
update-Orderly env v w o =
    update_outcome (λ t. Orderly (record w { state = t })) env w.state o v
      (record {
        distinct =
            Distinct-update_where (is_older v) (replace v) (λ r. refl) w.state.voyages o.distinct;
        between = o.between;
        logged = o.logged;
      })

upsert_estimate-Orderly :
    (env : Repository.Env) (id : String) (version amount : ℤ) (s : State)
    → Distinct s.voyages
    → Distinct (upsert_estimate env id version amount s).1.voyages
      × ((upsert_estimate env id version amount s).1.outbox ≡ s.outbox)
      × ((upsert_estimate env id version amount s).1.next_id ≡ s.next_id)
upsert_estimate-Orderly env id version amount s d =
    upsert_outcome (λ t. Distinct t.voyages × (t.outbox ≡ s.outbox) × (t.next_id ≡ s.next_id)) env s
      (d, refl, refl) id version amount
      (
        Distinct-update_where (takes_estimate id version amount) (set_estimate amount) (λ r. refl)
            s.voyages d,
        refl,
        refl,
      )

module _ (created : Codec VoyageCreated) (ready : Codec EstimateReady) (serde : Serde)
    (rate : Money) where
  create-Orderly :
      (env : Repository.Env) (v : Voyage) (w : Site)
      → Orderly w
      → Orderly (record w {
        state = (Repository.create (voyage_created_encoder created serde) env v w.state).1;
      })
  create-Orderly env v w o =
      elim (create_atomic (voyage_created_encoder created serde) env v w.state) [
        | inl u ↦ record {
          distinct = rw u.voyages o.distinct;
          between = rw u.outbox (drawn u.next_id);
          logged = rw u.outbox o.logged;
        }
        | inr c ↦ record {
          distinct =
              rw c.voyages (Distinct-append w.state.voyages (new_row env.now v) o.distinct c.fresh);
          between =
              rw (c.outbox, c.next_id)
                (Between-append 1 w.state.next_id w.state.outbox
                  (event_row w.state.next_id c.topic c.payload c.carrier) o.between refl);
          logged = rw c.outbox (
              Logged-unstamped w.log w.state.outbox
                (event_row w.state.next_id c.topic c.payload c.carrier) refl o.logged);
        }
      ]
    where
      drawn :
          {n : ℕ} → (n ≡ w.state.next_id) ⊎ (n ≡ suc w.state.next_id) → Between 1 n w.state.outbox
      drawn (inl e) = rw e o.between
      drawn (inr e) = rw e (
          Between-mono 1 w.state.next_id (suc w.state.next_id) w.state.outbox (omega arith)
            o.between)

  price-Orderly :
      (env : Pricing.Env) (r : Record) (w : Site)
      → Orderly w
      → Orderly (record w { log = (Pricing.handle created ready serde rate env r w.log).1 })
  price-Orderly env r w o =
      let grows = handle-Grows created ready serde rate env r w.log in
      record {
        distinct = o.distinct;
        between = o.between;
        logged = rw grows.grown (Logged-append w.log grows.more w.state.outbox o.logged);
      }

  to_dlq-Logged :
      (a : Ack) (r : Record) (log : List Produced) (rows : List OutboxRow)
      → Logged log rows
      → Logged (Applying.to_dlq a r log) rows
  unfolding Applying.to_dlq
  to_dlq-Logged acked r log rows h = Logged-append log _ rows h
  to_dlq-Logged refused r log rows h = h
  to_dlq-Logged answer_lost r log rows h = Logged-append log _ rows h

  apply-Orderly :
      (env : Applying.Env) (r : Record) (w : Site)
      → Orderly w
      → Orderly (Applying.handle ready serde env r w).1
  unfolding Applying.handle
  apply-Orderly env r w o = elim (Result-cases (Serde.decode ready serde r.value)) [
    | inr (e, d) ↦
        rw (d, Applying.handle)
          (record {
            distinct = o.distinct;
            between = o.between;
            logged = to_dlq-Logged (env.answer r) r w.log w.state.outbox o.logged;
          })
    | inl (er, d) ↦
        let (distinct, outbox, next) =
          upsert_estimate-Orderly (env.repository r) er.voyage_id er.voyage_version er.amount_minor
            w.state o.distinct in
        let answer =
          upsert_estimate (env.repository r) er.voyage_id er.voyage_version er.amount_minor
            w.state in
        rw (d, Applying.handle)
          (record {
            distinct = rw (applied_state (env.now r) answer w) distinct;
            between = rw (applied_state (env.now r) answer w, outbox, next) o.between;
            logged =
                rw (applied_state (env.now r) answer w, applied_log (env.now r) answer w, outbox)
                  o.logged;
          })
  ]

  step-Orderly : (w t : Site) → Step created ready serde rate w t → Orderly w → Orderly t
  step-Orderly w t (Step.create env v e) o = rw e (create-Orderly env v w o)
  step-Orderly w t (Step.update env v e) o = rw e (update-Orderly env v w o)
  step-Orderly w t (Step.relay env e) o = rw e (relay-Orderly env w o)
  step-Orderly w t (Step.price env r before after at e) o = rw e (price-Orderly env r w o)
  step-Orderly w t (Step.apply env r before after at e) o = rw e (apply-Orderly env r w o)

  -- In every state that calls of the services lead to, with any failures and redeliveries, a key has at most one row, the ids of the outbox
  -- rise and lie below the next of the sequence, and the broker holds the record of every stamped row.
  pub reached-Orderly : (w : Site) → Reaches created ready serde rate w → Orderly w
  reached-Orderly w Reaches.here = start-Orderly
  reached-Orderly w (Reaches.step {w = u} before s) = step-Orderly u w s (reached-Orderly u before)
