-- ===== src/System/Reachable.antt =====
-- The invariant of the services together: every estimate is a price that the estimator gave.
use mathlib.Core.List.{mem-singleton}
use maritime_test_lab.Prelude.{
  ℕ, some, List, [], ◌∷◌, ◌++◌, ok, ◌≡◌, refl, sym, ◌∙◌, All, All-append, All-at, subst,
}
use maritime_test_lab.Money.{Money, from_usd}
use maritime_test_lab.Estimate.{estimate_cost}
use maritime_test_lab.Kafka.{Record, Produced}
use maritime_test_lab.Topic
use maritime_test_lab.Serde.{Serde, Codec, lookup}
use maritime_test_lab.Serde
use maritime_test_lab.Serde.Laws.{RoundTrips, decode-encode}
use maritime_test_lab.Events.{VoyageCreated, EstimateReady, to_voyage_created, build_estimate_ready}
use maritime_test_lab.Voyage.{Voyage}
use maritime_test_lab.Repository.{upsert_estimate, Row}
use maritime_test_lab.Estimator.Consumer as Pricing
use maritime_test_lab.Estimator.Consumer.Soundness.{Follows, AllFollow, handle-Grows, Record-set}
use maritime_test_lab.VoyageService.Consumer as Applying
use maritime_test_lab.VoyageService.Consumer.{Site}
use maritime_test_lab.VoyageService.Consumer.Redelivered.{
  applied_state, applied_log, handle_decoded,
}
use maritime_test_lab.Kafka.Log.{Holds}
use maritime_test_lab.System.{Step, Reaches}
use maritime_test_lab.System.Tables.{reached-Orderly}
use maritime_test_lab.System.Evolution.{step-Evolves}
use maritime_test_lab.System.Prices.{Priced, upsert_estimate-Priced}
use maritime_test_lab.System.Genuine.{
  Event, Sourced, Genuine, Genuine-heard, topics_differ, dead_letters_differ, ok_injective,
  start-Genuine, create-Genuine, update-Genuine, relay-Genuine, moved,
}

module _ (created : Codec VoyageCreated) (ready : Codec EstimateReady) (serde : Serde)
    (rate : Money) where
  module _ (created_law : RoundTrips created) (ready_law : RoundTrips ready) (a b : ℕ)
      (created_known : lookup created.name serde ≡ some a)
      (ready_known : lookup ready.name serde ≡ some b) where
    pub known_event :
        (r : Record) (v : Voyage)
        → Serde.encode created serde (to_voyage_created v) ≡ ok r.value
        → Serde.decode created serde r.value ≡ ok (to_voyage_created v)
    known_event r v e =
        decode-encode created serde serde (to_voyage_created v) r.value a created_law e
          created_known

    -- what the estimator produces for an event of a created voyage
    follows-Sourced :
        (heard : List Produced) (rows : List Row) (env : Pricing.Env) (r : Record) (p : Produced)
        → (Event created ready serde rate heard) rows r.value
        → Holds (record { topic = Topic.voyage_created; value = r.value }) heard
        → Follows created ready serde rate env r p
        → (Sourced created ready serde rate heard) rows p
    unfolding to_voyage_created
    follows-Sourced heard rows env r p (v, one, e, a) held (Follows.dead_letter x d q) =
        rw q (λ h. absurd (dead_letters_differ.0 h), λ h. absurd (dead_letters_differ.1 h))
    follows-Sourced heard rows env r p (v, one, e, a) held (Follows.estimate vc cost d c t q) =
        let same : vc ≡ to_voyage_created v = ok_injective (sym d ∙ known_event r v e) in
        (
          λ h. absurd (topics_differ (sym h ∙ t)),
          λ h. (
            v,
            cost,
            env.now r,
            one,
            (r.value, e, held),
            subst (λ x. estimate_cost x.distance_nm (from_usd x.fees_minor) rate ≡ ok cost) same c,
            subst
                (λ x.
                  Serde.encode ready serde (build_estimate_ready x cost (env.now r)) ≡ ok p.value)
                same q,
            a,
          ),
        )

    AllFollow-Sourced :
        (heard : List Produced) (rows : List Row) (env : Pricing.Env) (r : Record)
        (more : List Produced)
        → (Event created ready serde rate heard) rows r.value
        → Holds (record { topic = Topic.voyage_created; value = r.value }) heard
        → AllFollow created ready serde rate env (r ∷ []) more
        → All (Sourced created ready serde rate heard rows) more
    AllFollow-Sourced heard rows env r [] e held h = tt
    AllFollow-Sourced heard rows env r (p ∷ more) e held ((q, m, f), h) = (
      follows-Sourced heard rows env r p e held (
          subst (λ x. Follows created ready serde rate env x p) ((mem-singleton Record-set).0 m) f),
      AllFollow-Sourced heard rows env r more e held h,
    )

    price-Genuine :
        (heard : List Produced) (env : Pricing.Env) (r : Record) (before after : List Produced)
        (w : Site)
        → w.log ≡ before ++ record { topic = Topic.voyage_created; value = r.value } ∷ after
        → Holds (record { topic = Topic.voyage_created; value = r.value }) heard
        → (Genuine created ready serde rate heard) w
        → (Genuine created ready serde rate heard)
            (record w { log = (Pricing.handle created ready serde rate env r w.log).1 })
    price-Genuine heard env r before after w at held g =
        let grows = handle-Grows created ready serde rate env r w.log in
        let rows = w.state.voyages in
        let sourced = Sourced created ready serde rate heard rows in
        let event : (Event created ready serde rate heard) rows r.value =
          (All-at sourced before _ after (subst (All sourced) at g.relay.1)).0 refl in
        record {
          versioned = g.versioned;
          rows = g.rows;
          relay = (
            g.relay.0,
            rw grows.grown (
                All-append sourced w.log grows.more g.relay.1
                  (AllFollow-Sourced heard rows env r grows.more event held grows.follow)),
            refl,
          );
        }

    apply-Genuine :
        (heard : List Produced) (env : Applying.Env) (r : Record) (before after : List Produced)
        (w : Site)
        → w.log ≡ before ++ record { topic = Topic.estimate_ready; value = r.value } ∷ after
        → (Genuine created ready serde rate heard) w
        → (Genuine created ready serde rate heard) (Applying.handle ready serde env r w).1
    unfolding to_voyage_created build_estimate_ready
    apply-Genuine heard env r before after w at g =
        let sourced = Sourced created ready serde rate heard w.state.voyages in
        let (v, cost, now, one, said, c, e, a) =
          (All-at sourced before _ after (subst (All sourced) at g.relay.1)).1 refl in
        let er : EstimateReady = build_estimate_ready (to_voyage_created v) cost now in
        let known = decode-encode ready serde serde er r.value b ready_law e ready_known in
        let (versioned, rows, outbox, more) =
          upsert_estimate-Priced created serde rate heard (env.repository r) v cost w.state one said
            c a g.versioned g.rows in
        let answer =
          upsert_estimate (env.repository r) v.client_request_id v.version cost.minor w.state in
        let (said, held) =
          moved created ready serde rate heard w.state.voyages answer.1.voyages w.state.outbox w.log
            more g.relay.0 g.relay.1 in
        rw (handle_decoded ready serde env env r w er env w known) (record {
          versioned = rw (applied_state (env.now r) answer w) versioned;
          rows = rw (applied_state (env.now r) answer w) rows;
          relay = (
            rw (applied_state (env.now r) answer w, outbox) said,
            rw (applied_log (env.now r) answer w, applied_state (env.now r) answer w) held,
            refl,
          );
        })

    step-Genuine :
        (w t : Site)
        → Step created ready serde rate w t
        → Genuine created ready serde rate w.log w
        → Genuine created ready serde rate w.log t
    step-Genuine w t (Step.create env v e) g =
        rw e (create-Genuine created ready serde rate w.log env v w g)
    step-Genuine w t (Step.update env v e) g =
        rw e (update-Genuine created ready serde rate w.log env v w g)
    step-Genuine w t (Step.relay env e) g =
        rw e (relay-Genuine created ready serde rate w.log env w g)
    step-Genuine w t (Step.price env r before after at e) g = rw e (
        price-Genuine w.log env r before after w at
          (record { before = before; rest = after; at = at }) g)
    step-Genuine w t (Step.apply env r before after at e) g =
        rw e (apply-Genuine w.log env r before after w at g)

    pub Reaches-Genuine :
        (w : Site) → Reaches created ready serde rate w → Genuine created ready serde rate w.log w
    Reaches-Genuine w Reaches.here = start-Genuine created ready serde rate []
    Reaches-Genuine w (Reaches.step {w = u} before s) =
        Genuine-heard created ready serde rate u.log w.log
          (step-Evolves created ready serde rate u w s
            (reached-Orderly created ready serde rate u before)).log
          w (step-Genuine u w s (Reaches-Genuine u before))

    -- Whatever calls of the services follow each other, with any failures and redeliveries, every estimate in a row of the database is the
    -- price that `EstimateCost` gives at the configured rate to a voyage of the row's key at version 1 whose voyage.created event the broker holds, and while the row itself is at version 1, it is the price of the row's own distance and
    -- fees, if the two events are registered and their codecs round-trip.
    pub reached_rows-Priced :
        (w : Site)
        → Reaches created ready serde rate w
        → All (Priced created serde rate w.log) w.state.voyages
    reached_rows-Priced w h = (Reaches-Genuine w h).rows
