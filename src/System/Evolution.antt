-- ===== src/System/Evolution.antt =====
-- What no call of the services takes away: records of the broker, events of the outbox, rows, and their estimates.
use mathlib.Core.Option
use mathlib.Core.List.{Mem, mem-append_left, map-append}
use maritime_test_lab.Prelude.{
  ℕ, String, Bool, true, none, some, List, [], ◌∷◌, ◌++◌, ◌≡◌, ◌≢◌, refl, arith, sym, ◌∙◌, ap,
  subst, Bool-cases, Result-cases, inl, inr, if◌then◌else◌,
}
use maritime_test_lab.Prelude.Int.{ℤ, ◌≤ℤ◌}
use maritime_test_lab.Money.{Money}
use maritime_test_lab.Serde.{Serde, Codec}
use maritime_test_lab.Serde
use maritime_test_lab.Events.{VoyageCreated, EstimateReady, voyage_created_encoder}
use maritime_test_lab.Kafka.{Record, Produced, Ack, acked, refused, answer_lost}
use maritime_test_lab.Kafka.Log.{Holds, Holds-append}
use maritime_test_lab.Voyage.{Voyage}
use maritime_test_lab.Repository
use maritime_test_lab.Repository.{
  Row, OutboxRow, State, find, update_higher_wins, is_older, replace, update_where, upsert_estimate,
  takes_estimate, set_estimate, first_where, new_row,
}
use maritime_test_lab.Repository.Rows.{find-append, find-update_where}
use maritime_test_lab.Repository.Creates.{create_atomic}
use maritime_test_lab.Outbox.{PollEnv, Relay}
use maritime_test_lab.Outbox.Safety.{contents, flush_safe}
use maritime_test_lab.Estimator.Consumer as Pricing
use maritime_test_lab.Estimator.Consumer.Soundness.{handle-Grows}
use maritime_test_lab.VoyageService.Consumer as Applying
use maritime_test_lab.VoyageService.Consumer.{Site}
use maritime_test_lab.VoyageService.Consumer.Redelivered.{applied_state, applied_log}
use maritime_test_lab.System.{Step, relayed}
use maritime_test_lab.System.Tables.{Orderly}
use maritime_test_lab.Repository.Outcomes.{upsert_outcome, update_outcome}

-- how a row may change
pub record Moves (r r' : Row) : Type 0 where
  pub version : r.version ≤ℤ r'.version
  pub estimated : r.estimate_minor ≢ none → r'.estimate_minor ≢ none

Moves-refl : (r : Row) → Moves r r
Moves-refl r = record { version = omega arith; estimated = λ h. h }

Moves-trans : (a b c : Row) → Moves a b → Moves b c → Moves a c
Moves-trans a b c p q = record {
  version = omega (arith, p.version, q.version);
  estimated = λ h. q.estimated (p.estimated h);
}

abbrev pub Kept : List Row → List Row → Type 0
Kept rows rows' =
    (id : String) (r : Row)
    → find id rows ≡ some r
    → (r' : Row) × (find id rows' ≡ some r') × Moves r r'

Kept-refl : (rows rows' : List Row) → rows' ≡ rows → Kept rows rows'
Kept-refl rows rows' e id r f = (r, rw e f, Moves-refl r)

Kept-append : (rows : List Row) (q : Row) → Kept rows (rows ++ q ∷ [])
Kept-append rows q id r f = (r, ground (arith, find-append id rows q), Moves-refl r)

Kept-update_where :
    (test : Row → Bool) (change : Row → Row) (rows : List Row)
    → ((r : Row) → (change r).client_request_id ≡ r.client_request_id)
    → ((r : Row) → test r ≡ true → Moves r (change r))
    → Kept rows (update_where test change rows)
Kept-update_where test change rows keeps moves id r f = elim (Bool-cases (test r)) [
  | inl e ↦ (
    change r,
    find-update_where test change keeps id rows ∙ ap (Option.map pick) f ∙ ground arith,
    moves r e,
  )
  | inr e ↦ (
    r,
    find-update_where test change keeps id rows ∙ ap (Option.map pick) f ∙ ground arith,
    Moves-refl r,
  )
]
  where
    pick : Row → Row
    pick r = if test r then change r else r

pub record Evolves (w t : Site) : Type 0 where
  pub log : (p : Produced) → Holds p w.log → Holds p t.log
  pub outbox :
      (c : ℕ × Produced × List ℕ)
      → Mem c (contents w.state.outbox)
      → Mem c (contents t.state.outbox)
  pub rows : Kept w.state.voyages t.state.voyages

pub Evolves-refl : (w : Site) → Evolves w w
Evolves-refl w = record {
  log = λ p h. h;
  outbox = λ c m. m;
  rows = Kept-refl w.state.voyages w.state.voyages refl;
}

pub Evolves-trans : (w t u : Site) → Evolves w t → Evolves t u → Evolves w u
Evolves-trans w t u p q = record {
  log = λ x h. q.log x (p.log x h);
  outbox = λ c m. q.outbox c (p.outbox c m);
  rows = λ id r f.
      let (r', f', m) = p.rows id r f in
      let (r'', f'', m') = q.rows id r' f' in (r'', f'', Moves-trans r r' r'' m m');
}

update-Evolves :
    (env : Repository.Env) (v : Voyage) (w : Site)
    → Evolves w (record w { state = (Repository.update env v w.state).1 })
unfolding update_higher_wins
update-Evolves env v w =
    update_outcome (λ t. Evolves w (record w { state = t })) env w.state (Evolves-refl w) v
      (record {
        log = λ p h. h;
        outbox = λ c m. m;
        rows =
            Kept-update_where (is_older v) (replace v) w.state.voyages (λ r. refl)
              (λ r t. record { version = ground arith; estimated = λ h. h });
      })

relay-Evolves : (env : PollEnv) (w : Site) → Orderly w → Evolves w (relayed env w)
relay-Evolves env w o =
    let s : Relay = record { db = w.state.db; log = w.log } in
    let moved = (flush_safe env s 1 w.state.next_id o.between o.logged).1 in
    record {
      log = λ p h. rw moved.grown (Holds-append p w.log moved.more h);
      outbox = λ c m. rw moved.kept m;
      rows = Kept-refl w.state.voyages _ moved.voyages;
    }

upsert_estimate-Kept :
    (env : Repository.Env) (id : String) (version amount : ℤ) (s : State)
    → Kept s.voyages (upsert_estimate env id version amount s).1.voyages
      × ((upsert_estimate env id version amount s).1.outbox ≡ s.outbox)
upsert_estimate-Kept env id version amount s =
    upsert_outcome (λ t. Kept s.voyages t.voyages × (t.outbox ≡ s.outbox)) env s
      (Kept-refl s.voyages s.voyages refl, refl) id version amount
      (
        Kept-update_where (takes_estimate id version amount) (set_estimate amount) s.voyages
            (λ r. refl) (λ r t. record { version = omega arith; estimated = λ h k. cc }),
        refl,
      )

to_dlq-Holds :
    (a : Ack) (r : Record) (log : List Produced) (p : Produced)
    → Holds p log
    → Holds p (Applying.to_dlq a r log)
unfolding Applying.to_dlq
to_dlq-Holds acked r log p h = Holds-append p log _ h
to_dlq-Holds refused r log p h = h
to_dlq-Holds answer_lost r log p h = Holds-append p log _ h

module _ (created : Codec VoyageCreated) (ready : Codec EstimateReady) (serde : Serde)
    (rate : Money) where
  create-Evolves :
      (env : Repository.Env) (v : Voyage) (w : Site)
      → Evolves w (record w {
        state = (Repository.create (voyage_created_encoder created serde) env v w.state).1;
      })
  create-Evolves env v w =
      elim (create_atomic (voyage_created_encoder created serde) env v w.state) [
        | inl u ↦ record {
          log = λ p h. h;
          outbox = λ c m. rw u.outbox m;
          rows = Kept-refl w.state.voyages _ u.voyages;
        }
        | inr c ↦ record {
          log = λ p h. h;
          outbox = λ x m.
              rw c.outbox
                (subst (Mem x) (sym (map-append _ w.state.outbox _)) (mem-append_left _ m));
          rows =
              subst (Kept w.state.voyages) (sym c.voyages)
                (Kept-append w.state.voyages (new_row env.now v));
        }
      ]

  price-Evolves :
      (env : Pricing.Env) (r : Record) (w : Site)
      → Evolves w (record w { log = (Pricing.handle created ready serde rate env r w.log).1 })
  price-Evolves env r w =
      let grows = handle-Grows created ready serde rate env r w.log in
      record {
        log = λ p h. rw grows.grown (Holds-append p w.log grows.more h);
        outbox = λ c m. m;
        rows = Kept-refl w.state.voyages w.state.voyages refl;
      }

  apply-Evolves :
      (env : Applying.Env) (r : Record) (w : Site)
      → Evolves w (Applying.handle ready serde env r w).1
  unfolding Applying.handle
  apply-Evolves env r w = elim (Result-cases (Serde.decode ready serde r.value)) [
    | inr (e, d) ↦
        rw (d, Applying.handle)
          (record {
            log = λ p h. to_dlq-Holds (env.answer r) r w.log p h;
            outbox = λ c m. m;
            rows = Kept-refl w.state.voyages w.state.voyages refl;
          })
    | inl (er, d) ↦
        let (rows, outbox) =
          upsert_estimate-Kept (env.repository r) er.voyage_id er.voyage_version er.amount_minor
            w.state in
        let answer =
          upsert_estimate (env.repository r) er.voyage_id er.voyage_version er.amount_minor
            w.state in
        rw (d, Applying.handle)
          (record {
            log = λ p h. rw (applied_log (env.now r) answer w) h;
            outbox = λ c m. rw (applied_state (env.now r) answer w, outbox) m;
            rows = rw (applied_state (env.now r) answer w) rows;
          })
  ]

  pub step-Evolves : (w t : Site) → Step created ready serde rate w t → Orderly w → Evolves w t
  step-Evolves w t (Step.create env v e) o = rw e (create-Evolves env v w)
  step-Evolves w t (Step.update env v e) o = rw e (update-Evolves env v w)
  step-Evolves w t (Step.relay env e) o = rw e (relay-Evolves env w o)
  step-Evolves w t (Step.price env r before after at e) o = rw e (price-Evolves env r w)
  step-Evolves w t (Step.apply env r before after at e) o = rw e (apply-Evolves env r w)
