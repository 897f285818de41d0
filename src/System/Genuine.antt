-- ===== src/System/Genuine.antt =====
-- Every estimate of the database is a price that the estimator gave to a created voyage.
use maritime_test_lab.Prelude.{
  ℕ, String, true, false, List, [], ◌∷◌, Result, ok, ◌≡◌, refl, arith, sym, ◌∙◌, inl, inr, All,
  All-append, eq_iff, All-map, ◌++◌,
}
use maritime_test_lab.Prelude.Int.{pos}
use maritime_test_lab.Money.{Money, from_usd}
use maritime_test_lab.Estimate.{estimate_cost}
use maritime_test_lab.Kafka.{Produced}
use maritime_test_lab.Kafka.Log.{Holds}
use maritime_test_lab.Topic
use maritime_test_lab.Serde.{Serde, Codec, lookup}
use maritime_test_lab.Serde
use maritime_test_lab.Events.{
  VoyageCreated, EstimateReady, to_voyage_created, build_estimate_ready, voyage_created_encoder,
}
use maritime_test_lab.Voyage.{Voyage}
use maritime_test_lab.Repository
use maritime_test_lab.Repository.{
  Row, OutboxRow, State, update_higher_wins, is_older, replace, update_where, upsert_estimate,
  takes_estimate, set_estimate, first_where, scan_voyage, new_row,
}
use maritime_test_lab.Repository.Creates.{create_atomic}
use maritime_test_lab.Outbox.{PollEnv, produced}
use maritime_test_lab.VoyageService.Consumer.{Site}
use maritime_test_lab.System.{start, relayed}
use maritime_test_lab.System.Sources.{Fair, flush-Fair, Says}
use maritime_test_lab.System.Anchors.{
  Versioned, Anchored, created-Anchored, append-Anchored, update-Anchored, update-Versioned,
}
use maritime_test_lab.System.Prices.{Announced, Priced, update-Priced, Announced-mono, Priced-mono}
use maritime_test_lab.Repository.Outcomes.{update_outcome}

pub topics_differ : ¬ (Topic.voyage_created ≡ Topic.estimate_ready)
topics_differ h =
    let x : false ≡ true = (eq_iff Topic.voyage_created Topic.estimate_ready).1 h in cc

pub dead_letters_differ :
    ¬ (Topic.voyage_created_dlq ≡ Topic.voyage_created)
    × ¬ (Topic.voyage_created_dlq ≡ Topic.estimate_ready)
dead_letters_differ = (
  λ h. let x : false ≡ true = (eq_iff Topic.voyage_created_dlq Topic.voyage_created).1 h in cc,
  λ h. let x : false ≡ true = (eq_iff Topic.voyage_created_dlq Topic.estimate_ready).1 h in cc,
)

pub ok_injective : {E A : Type 0} {x y : A} → ◌≡◌ {A = Result E A} (ok x) (ok y) → x ≡ y
ok_injective e = cc

module _ (created : Codec VoyageCreated) (ready : Codec EstimateReady) (serde : Serde)
    (rate : Money) (heard : List Produced) where
  -- the voyage, at version 1, that the bytes announce
  abbrev pub Event : List Row → List ℕ → Type 0
  Event rows bytes =
      (v : Voyage) × (v.version ≡ pos 1)
      × (Serde.encode created serde (to_voyage_created v) ≡ ok bytes)
      × Anchored rows v

  -- a voyage at version 1 that was announced, with its price, whose event the bytes are
  abbrev pub Quote : List Row → List ℕ → Type 0
  Quote rows bytes =
      (v : Voyage) × (cost : Money) × (now : ℕ) × (v.version ≡ pos 1)
      × Announced created serde rate heard v
      × (estimate_cost v.distance_nm (from_usd v.fees_minor) rate ≡ ok cost)
      × (Serde.encode ready serde (build_estimate_ready (to_voyage_created v) cost now) ≡ ok bytes)
      × Anchored rows v

  abbrev pub Sourced : List Row → Produced → Type 0
  Sourced rows p =
      (p.topic ≡ Topic.voyage_created → Event rows p.value)
      × (p.topic ≡ Topic.estimate_ready → Quote rows p.value)

  Sourced-mono :
      (rows rows' : List Row)
      → ((v : Voyage) → Anchored rows v → Anchored rows' v)
      → (p : Produced) → Sourced rows p
      → Sourced rows' p
  Sourced-mono rows rows' more p (e, q) = (
    λ h. let (v, one, f, a) = e h in (v, one, f, more v a),
    λ h. let (v, cost, now, one, said, c, f, a) = q h in (v, cost, now, one, said, c, f, more v a),
  )

  pub record Genuine (w : Site) : Type 0 where
    pub versioned : All Versioned w.state.voyages
    pub rows : All (Priced created serde rate heard) w.state.voyages
    pub relay :
        Fair (Sourced w.state.voyages) w.state.voyages (record { db = w.state.db; log = w.log })

  pub start-Genuine : Genuine start
  start-Genuine = record { versioned = tt; rows = tt; relay = (tt, tt, refl) }

  -- what the outbox says and the broker holds stays sourced where the voyages stay anchored
  pub moved :
      (rows rows' : List Row) (outbox : List OutboxRow) (log : List Produced)
      → ((v : Voyage) → Anchored rows v → Anchored rows' v)
      → All (Says (Sourced rows) rows) outbox
      → All (Sourced rows) log
      → All (Says (Sourced rows') rows') outbox × All (Sourced rows') log
  moved rows rows' outbox log more o l = (
    All-map (Says (Sourced rows) rows) (Says (Sourced rows') rows') outbox
        (λ r. Sourced-mono rows rows' more (produced r)) o,
    All-map (Sourced rows) (Sourced rows') log (Sourced-mono rows rows' more) l,
  )

  pub encoded_as :
      (v : Voyage) (topic : String) (payload : List ℕ)
      → voyage_created_encoder created serde v ≡ ok (topic, payload)
      → (topic ≡ Topic.voyage_created)
        × (Serde.encode created serde (to_voyage_created v) ≡ ok payload)
  unfolding voyage_created_encoder
  encoded_as v topic payload e = ground arith

  event_row :
      (rows : List Row) (v : Voyage) (topic : String) (payload : List ℕ)
      → v.version ≡ pos 1
      → Anchored rows v
      → voyage_created_encoder created serde v ≡ ok (topic, payload)
      → Sourced rows (record { topic = topic; value = payload })
  event_row rows v topic payload one a e =
      let (t, f) = encoded_as v topic payload e in
      (λ h. (v, one, f, a), λ h. absurd (topics_differ (sym t ∙ h)))

  first_version : (now : ℕ) (v : Voyage) → (scan_voyage (new_row now v)).version ≡ pos 1
  unfolding scan_voyage
  first_version now v = refl

  pub create-Genuine :
      (env : Repository.Env) (v : Voyage) (w : Site)
      → Genuine w
      → Genuine (record w {
        state = (Repository.create (voyage_created_encoder created serde) env v w.state).1;
      })
  create-Genuine env v w g =
      elim (create_atomic (voyage_created_encoder created serde) env v w.state) [
        | inl u ↦ record {
          versioned = rw u.voyages g.versioned;
          rows = rw u.voyages g.rows;
          relay = (rw (u.outbox, u.voyages) g.relay.0, rw u.voyages g.relay.1, refl);
        }
        | inr c ↦
            let grown : List Row = w.state.voyages ++ new_row env.now v ∷ [] in
            let (outbox, log) =
              moved w.state.voyages grown w.state.outbox w.log
                (λ x a. append-Anchored env.now v x w.state.voyages c.fresh a) g.relay.0
                g.relay.1 in
            record {
              versioned = rw c.voyages (
                  All-append Versioned w.state.voyages (new_row env.now v ∷ []) g.versioned
                    (omega arith, tt));
              rows = rw c.voyages (
                  All-append (Priced created serde rate heard) w.state.voyages
                    (new_row env.now v ∷ []) g.rows ((λ amount e. cc), tt));
              relay = (
                rw (c.outbox, c.voyages)
                    (All-append (Says (Sourced grown) grown) w.state.outbox _ outbox (
                      event_row grown (scan_voyage (new_row env.now v)) c.topic c.payload
                          (first_version env.now v)
                          (created-Anchored env.now v w.state.voyages c.fresh) c.encoded,
                      tt,
                    )),
                rw c.voyages log,
                refl,
              );
            }
      ]

  pub update-Genuine :
      (env : Repository.Env) (v : Voyage) (w : Site)
      → Genuine w
      → Genuine (record w { state = (Repository.update env v w.state).1 })
  update-Genuine env v w g =
      update_outcome (λ t. Genuine (record w { state = t })) env w.state g v
        (let (outbox, log) =
            moved w.state.voyages (update_higher_wins v w.state.voyages) w.state.outbox w.log
              (λ x. update-Anchored v x w.state.voyages g.versioned) g.relay.0 g.relay.1 in
          record {
            versioned = update-Versioned v w.state.voyages g.versioned;
            rows = update-Priced created serde rate heard v w.state.voyages g.versioned g.rows;
            relay = (outbox, log, refl);
          })

  pub relay-Genuine : (env : PollEnv) (w : Site) → Genuine w → Genuine (relayed env w)
  relay-Genuine env w g =
      let (o, l, k) =
        flush-Fair (Sourced w.state.voyages) w.state.voyages env
          (record { db = w.state.db; log = w.log }) g.relay in
      record { versioned = rw k g.versioned; rows = rw k g.rows; relay = (rw k o, rw k l, refl) }

-- what is genuine stays so when more is announced
module _ (created : Codec VoyageCreated) (ready : Codec EstimateReady) (serde : Serde)
    (rate : Money) (heard heard' : List Produced)
    (more : (p : Produced) → Holds p heard → Holds p heard') where
  Sourced-heard :
      (rows : List Row) (p : Produced)
      → Sourced created ready serde rate heard rows p
      → Sourced created ready serde rate heard' rows p
  Sourced-heard rows p (e, q) = (
    e,
    λ h.
        let (v, cost, now, one, said, c, f, a) = q h in
        (v, cost, now, one, Announced-mono created serde rate heard heard' more v said, c, f, a),
  )

  pub Genuine-heard :
      (w : Site)
      → Genuine created ready serde rate heard w
      → Genuine created ready serde rate heard' w
  Genuine-heard w g =
      let rows = w.state.voyages in
      record {
        versioned = g.versioned;
        rows =
            All-map (Priced created serde rate heard) (Priced created serde rate heard') rows
              (Priced-mono created serde rate heard heard' more) g.rows;
        relay = (
          All-map (Says (Sourced created ready serde rate heard rows) rows)
              (Says (Sourced created ready serde rate heard' rows) rows) w.state.outbox
              (λ r. Sourced-heard rows (produced r)) g.relay.0,
          All-map (Sourced created ready serde rate heard rows)
              (Sourced created ready serde rate heard' rows) w.log (Sourced-heard rows) g.relay.1,
          refl,
        );
      }
