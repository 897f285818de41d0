-- ===== src/System/Delivery/Eventually.antt =====
-- Every created voyage gets its price.
use maritime_test_lab.Prelude.{
  ℕ, ◌*◌, ◌≤◌, none, some, List, ◌≡◌, ◌≢◌, refl, sym, ◌∙◌, ap, subst, ok, Option-cases, inl, inr,
  All, All-at, length, false, ap₂, Result,
}
use maritime_test_lab.Prelude.Int.{pos, ◌≤ℤ◌}
use maritime_test_lab.Money.{Money, from_usd}
use maritime_test_lab.Estimate
use maritime_test_lab.Estimate.{estimate_cost}
use maritime_test_lab.Serde.{Serde, Codec, lookup}
use maritime_test_lab.Serde
use maritime_test_lab.Serde.Laws.{RoundTrips, decode-encode}
use maritime_test_lab.Events.{
  VoyageCreated, EstimateReady, to_voyage_created, build_estimate_ready, voyage_created_encoder,
}
use maritime_test_lab.Kafka.{Record, acked}
use maritime_test_lab.Kafka.Log.{Holds, Holds-last}
use maritime_test_lab.Topic
use maritime_test_lab.Voyage.{Voyage}
use maritime_test_lab.Repository
use maritime_test_lab.Repository.{Row, find}
use maritime_test_lab.Repository.Rows.{find_key}
use maritime_test_lab.Repository.Estimates.{with_estimate}
use maritime_test_lab.Outbox.{PollEnv, where_unpublished, limit}
use maritime_test_lab.Outbox.Delivery.{Healthy}
use maritime_test_lab.Estimator.Consumer as Pricing
use maritime_test_lab.VoyageService.Consumer as Applying
use maritime_test_lab.VoyageService.Consumer.{Site}
use maritime_test_lab.System.{Step, Steps, Reaches, ticked}
use maritime_test_lab.System.Tables.{reached-Orderly}
use maritime_test_lab.System.Anchors.{Versioned, Bound}
use maritime_test_lab.System.Prices.{Priced}
use maritime_test_lab.System.Genuine.{Sourced, Genuine, ok_injective}
use maritime_test_lab.System.Reachable.{Reaches-Genuine}
use maritime_test_lab.System.Evolution.{Evolves, step-Evolves, Evolves-trans}
use maritime_test_lab.System.Delivery.{
  ticked-Holds, Reaches-Steps, Reaches-ticked, Steps-Evolves, ticked-Evolves,
}
use maritime_test_lab.System.Delivery.Stages.{
  first, found, upserted, Stored, create-Stored, price_log, applied_row,
}

module _ (created : Codec VoyageCreated) (ready : Codec EstimateReady) (serde : Serde)
    (rate : Money) (created_law : RoundTrips created) (ready_law : RoundTrips ready) (a b : ℕ)
    (created_known : lookup created.name serde ≡ some a)
    (ready_known : lookup ready.name serde ≡ some b) where
  decoded_event :
      (v : Voyage) (bytes : List ℕ)
      → Serde.encode created serde (to_voyage_created v) ≡ ok bytes
      → Serde.decode created serde bytes ≡ ok (to_voyage_created v)
  decoded_event v bytes e =
      decode-encode created serde serde (to_voyage_created v) bytes a created_law e created_known

  -- the price of a row at version 1 that has one, whose event the broker holds
  the_price :
      (w : Site) (c : Voyage) (cost : Money) (bytes : List ℕ) (r : Row)
      → Genuine created ready serde rate w.log w
      → Holds (record { topic = Topic.voyage_created; value = bytes }) w.log
      → Serde.encode created serde (to_voyage_created c) ≡ ok bytes
      → estimate_cost c.distance_nm (from_usd c.fees_minor) rate ≡ ok cost
      → find c.client_request_id w.state.voyages ≡ some r
      → r.estimate_minor ≢ none
      → r.version ≡ pos 1
      → r.estimate_minor ≡ some cost.minor
  unfolding to_voyage_created
  the_price w c cost bytes r g h e p f some_price one = elim (Option-cases r.estimate_minor) [
    | inl n ↦ absurd (some_price n)
    | inr (m, n) ↦
        let sourced = Sourced created ready serde rate w.log w.state.voyages in
        let (v, _, e', anchored) =
          (All-at sourced h.before _ h.rest (subst (All sourced) h.at g.relay.1)).0 refl in
        let same : to_voyage_created c ≡ to_voyage_created v =
          ok_injective (sym (decoded_event c bytes e) ∙ decoded_event v bytes e') in
        let key = find_key c.client_request_id w.state.voyages r f in
        let (d, fees) =
          found (Bound v) c.client_request_id w.state.voyages r f anchored.bound
            (key ∙ ap (λ x. x.client_request_id) same) one in
        let (_, own) =
          found (Priced created serde rate w.log) c.client_request_id w.state.voyages r f g.rows m
            n in
        let (cost', p', minor) = own one in
        let prices : ◌≡◌ {A = Result Estimate.Error Money} (ok cost') (ok cost) =
          sym p'
          ∙ ap₂ (λ x y. estimate_cost x (from_usd y) rate) (d ∙ sym (ap (λ x. x.distance_nm) same))
              (fees ∙ sym (ap (λ x. x.fees_minor) same))
          ∙ p in
        n ∙ ap some (sym minor ∙ ap (λ x. x.minor) (ok_injective prices))
  ]

  -- the row behind the application of the price, and behind what follows
  priced_row :
      (w6 w8 : Site) (c : Voyage) (applying : Applying.Env) (event estimate : Record) (cost : Money)
      (now : ℕ)
      → Reaches created ready serde rate w6
      → Holds (record { topic = Topic.voyage_created; value = event.value }) w6.log
      → Holds (record { topic = Topic.estimate_ready; value = estimate.value }) w6.log
      → (r6 : Row) × (find c.client_request_id w6.state.voyages ≡ some r6)
      → c.version ≡ pos 1
      → Serde.encode created serde (to_voyage_created c) ≡ ok event.value
      → estimate_cost c.distance_nm (from_usd c.fees_minor) rate ≡ ok cost
      → Serde.encode ready serde (build_estimate_ready (to_voyage_created c) cost now)
        ≡ ok estimate.value
      → (applying.repository estimate).query_fails ≡ false
      → (applying.repository estimate).commit ≡ Repository.committed
      → Steps created ready serde rate (Applying.handle ready serde applying estimate w6).1 w8
      → (r : Row) × (find c.client_request_id w8.state.voyages ≡ some r)
        × (r.version ≡ pos 1 → r.estimate_minor ≡ some cost.minor)
  unfolding to_voyage_created build_estimate_ready
  priced_row w6 w8 c applying event estimate cost now h6 he hq (r6, f6) one e p q runs done later =
      let w7 = (Applying.handle ready serde applying estimate w6).1 in
      let apply : Step created ready serde rate w6 w7 =
        Step.apply applying estimate hq.before hq.rest hq.at refl in
      let h7 = Reaches.step h6 apply in
      let er = build_estimate_ready (to_voyage_created c) cost now in
      let known = decode-encode ready serde serde er estimate.value b ready_law q ready_known in
      let f7 =
        applied_row ready serde applying estimate er w6 r6
          (reached-Orderly created ready serde rate w6 h6) known one runs done f6 in
      let onward = Steps-Evolves created ready serde rate w7 w8 h7 later in
      let (r8, f8, moves) =
        onward.rows c.client_request_id (with_estimate (pos 1) cost.minor r6) f7 in
      let held = onward.log _ (
        (step-Evolves created ready serde rate w6 w7 apply
            (reached-Orderly created ready serde rate w6 h6)).log
          _ he) in
      let genuine =
        Reaches-Genuine created ready serde rate created_law ready_law a b created_known
          ready_known in
      let at_least =
        found Versioned c.client_request_id w6.state.voyages r6 f6 (genuine w6 h6).versioned in
      (
        r8,
        f8,
        λ one8.
            the_price w8 c cost event.value r8
              (genuine w8 (Reaches-Steps created ready serde rate w7 w8 h7 later)) held e p f8
              (moves.estimated (
                (upserted cost.minor r6).1 (
                  first r6.version at_least (
                    subst (λ x. x ≤ℤ pos 1) (upserted cost.minor r6).0
                      (subst (λ x. (with_estimate (pos 1) cost.minor r6).version ≤ℤ x) one8
                        moves.version)))))
              one8,
      )

  -- from the creation to the broker
  announced :
      (w1 w2 w4 : Site) (c : Voyage) (ticks : List PollEnv) (event : Record)
      → Reaches created ready serde rate w1
      → Stored created ready serde rate w1.state c
      → Steps created ready serde rate w1 w2
      → All Healthy ticks
      → length (where_unpublished w2.state.outbox) ≤ length ticks * limit
      → Steps created ready serde rate (ticked ticks w2) w4
      → Serde.encode created serde (to_voyage_created c) ≡ ok event.value
      → Reaches created ready serde rate w4
        × Evolves w1 w4
        × Holds (record { topic = Topic.voyage_created; value = event.value }) w4.log
  announced w1 w2 w4 c ticks event h1 stored s2 healthy enough s4 e =
      let w3 = ticked ticks w2 in
      let h2 = Reaches-Steps created ready serde rate w1 w2 h1 s2 in
      let h3 = Reaches-ticked created ready serde rate ticks w2 h2 in
      let to_2 = Steps-Evolves created ready serde rate w1 w2 h1 s2 in
      let to_3 = ticked-Evolves created ready serde rate ticks w2 h2 in
      let to_4 = Steps-Evolves created ready serde rate w3 w4 h3 s4 in
      let same : stored.payload ≡ event.value = ok_injective (sym stored.encoded ∙ e) in
      (
        Reaches-Steps created ready serde rate w3 w4 h3 s4,
        Evolves-trans w1 w2 w4 to_2 (Evolves-trans w2 w3 w4 to_3 to_4),
        to_4.log _ (
            subst (λ x. Holds (record { topic = Topic.voyage_created; value = x }) w3.log) same
              (ticked-Holds ticks w2 _ (reached-Orderly created ready serde rate w2 h2) healthy
                enough (to_2.outbox _ stored.event))),
      )

  -- from the event to its estimate
  estimated :
      (w4 w6 : Site) (c : Voyage) (pricing : Pricing.Env) (event estimate : Record) (cost : Money)
      → Reaches created ready serde rate w4
      → Holds (record { topic = Topic.voyage_created; value = event.value }) w4.log
      → Serde.encode created serde (to_voyage_created c) ≡ ok event.value
      → estimate_cost c.distance_nm (from_usd c.fees_minor) rate ≡ ok cost
      → pricing.answer event ≡ acked
      → Steps created ready serde rate
          (record w4 { log = (Pricing.handle created ready serde rate pricing event w4.log).1 })
          w6
      → Serde.encode ready serde
          (build_estimate_ready (to_voyage_created c) cost (pricing.now event))
        ≡ ok estimate.value
      → Reaches created ready serde rate w6
        × Evolves w4 w6
        × Holds (record { topic = Topic.estimate_ready; value = estimate.value }) w6.log
  unfolding to_voyage_created
  estimated w4 w6 c pricing event estimate cost h4 he e p ack s6 q =
      let w5 = record w4 {
        log = (Pricing.handle created ready serde rate pricing event w4.log).1;
      } in
      let price : Step created ready serde rate w4 w5 =
        Step.price pricing event he.before he.rest he.at refl in
      let h5 = Reaches.step h4 price in
      let to_5 =
        step-Evolves created ready serde rate w4 w5 price
          (reached-Orderly created ready serde rate w4 h4) in
      let to_6 = Steps-Evolves created ready serde rate w5 w6 h5 s6 in
      let there : Holds (record { topic = Topic.estimate_ready; value = estimate.value }) w5.log =
        rw
          (price_log created ready serde rate pricing event (to_voyage_created c) cost
            estimate.value w4.log (decoded_event c event.value e) p ack q)
          (Holds-last _ w4.log) in
      (
        Reaches-Steps created ready serde rate w5 w6 h5 s6,
        Evolves-trans w4 w5 w6 to_5 to_6,
        to_6.log _ there,
      )

  -- Whatever other calls come between, with any failures: when the creation of a fresh key is acknowledged, the poller then has healthy ticks for what is unpublished, the estimator
  -- handles the event with its produce acknowledged, and the voyage service handles the estimate with its statement committed, then the broker holds the event and the estimate in time for these calls, and ever after the
  -- voyage has its row, whose estimate, while the row is at version 1, is the price of the created voyage; if it has a price, and the codecs of the two events, which are registered, round-trip.
  pub create_priced :
      (w w2 w4 w6 w8 : Site) (env : Repository.Env) (v c : Voyage) (ticks : List PollEnv)
      (pricing : Pricing.Env) (applying : Applying.Env) (event estimate : Record) (cost : Money)
      → Reaches created ready serde rate w
      → find v.client_request_id w.state.voyages ≡ none
      → (Repository.create (voyage_created_encoder created serde) env v w.state).0 ≡ ok c
      → Steps created ready serde rate
          (record w {
            state = (Repository.create (voyage_created_encoder created serde) env v w.state).1;
          })
          w2
      → All Healthy ticks
      → length (where_unpublished w2.state.outbox) ≤ length ticks * limit
      → Steps created ready serde rate (ticked ticks w2) w4
      → Serde.encode created serde (to_voyage_created c) ≡ ok event.value
      → estimate_cost c.distance_nm (from_usd c.fees_minor) rate ≡ ok cost
      → pricing.answer event ≡ acked
      → Steps created ready serde rate
          (record w4 { log = (Pricing.handle created ready serde rate pricing event w4.log).1 })
          w6
      → Serde.encode ready serde
          (build_estimate_ready (to_voyage_created c) cost (pricing.now event))
        ≡ ok estimate.value
      → (applying.repository estimate).query_fails ≡ false
      → (applying.repository estimate).commit ≡ Repository.committed
      → Steps created ready serde rate (Applying.handle ready serde applying estimate w6).1 w8
      → Holds (record { topic = Topic.voyage_created; value = event.value }) w4.log
        × Holds (record { topic = Topic.estimate_ready; value = estimate.value }) w6.log
        × ((r : Row) × (find c.client_request_id w8.state.voyages ≡ some r)
            × (r.version ≡ pos 1 → r.estimate_minor ≡ some cost.minor))
  create_priced w w2 w4 w6 w8 env v c ticks pricing applying event estimate cost h fresh created_ok
        s2 healthy enough s4 e p ack s6 q runs done s8 =
      let stored = create-Stored created ready serde rate env v c w.state fresh created_ok in
      let w1 = record w {
        state = (Repository.create (voyage_created_encoder created serde) env v w.state).1;
      } in
      let (h4, to_4, event_4) =
        announced w1 w2 w4 c ticks event (Reaches.step h (Step.create env v refl)) stored s2 healthy
          enough s4 e in
      let (h6, to_6, estimate_6) =
        estimated w4 w6 c pricing event estimate cost h4 event_4 e p ack s6 q in
      let (r6, f6, _) =
        (Evolves-trans w1 w4 w6 to_4 to_6).rows c.client_request_id stored.row stored.found_row in
      (
        event_4,
        estimate_6,
        priced_row w6 w8 c applying event estimate cost (pricing.now event) h6 (to_6.log _ event_4)
            estimate_6 (r6, f6) stored.one e p q runs done s8,
      )
