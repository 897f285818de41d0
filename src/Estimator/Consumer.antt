-- ===== src/Estimator/Consumer.antt =====
-- services/estimator/adapters/kafka/consumer.go: prices voyage.created and publishes estimate.ready.
pub mod Soundness
use maritime_test_lab.Prelude.{
  ℕ, Bool, true, false, List, [], ◌∷◌, Result, ok, err, if◌then◌else◌, String,
}
use maritime_test_lab.Money.{Money, from_usd}
use maritime_test_lab.Estimate.{estimate_cost}
use maritime_test_lab.Kafka.{
  Record, Produced, Ack, acked, refused, answer_lost, append_log, Offsets,
}
use maritime_test_lab.Topic
use maritime_test_lab.Serde.{Serde, Codec}
use maritime_test_lab.Serde
use maritime_test_lab.Events.{VoyageCreated, EstimateReady, build_estimate_ready}
use maritime_test_lab.Consumer

-- the injected clock and the broker's answer to the one produce of a call, by record
pub record Env : Type 0 where
  pub now : Record → ℕ
  pub answer : Record → Ack

abbrev pub consumer_group : String
consumer_group = "estimator-service"

abbrev pub is_acked : Ack → Bool
is_acked acked = true
is_acked refused = false
is_acked answer_lost = false

-- A failed produce to the dead-letter topic is only logged.
unfoldable pub to_dlq : Ack → Record → List Produced → List Produced
to_dlq answer r log =
    append_log answer (record { topic = Topic.voyage_created_dlq; value = r.value }) log

module _ (created : Codec VoyageCreated) (ready : Codec EstimateReady) (serde : Serde)
    (rate : Money) (env : Env) where
  -- the answer is whether the offset is safe to commit; the state is the broker's log
  unfoldable pub publish_estimate :
      Record → VoyageCreated → Money → List Produced → Bool × List Produced
  publish_estimate r vc cost log =
      elim (Serde.encode ready serde (build_estimate_ready vc cost (env.now r))) [
        | err e ↦ (false, log)
        | ok payload ↦ (
          is_acked (env.answer r),
          append_log (env.answer r) (record { topic = Topic.estimate_ready; value = payload }) log,
        )
      ]

  unfoldable pub handle : Record → List Produced → Bool × List Produced
  unfolding to_dlq publish_estimate
  handle r log = elim (Serde.decode created serde r.value) [
    | err e ↦ (true, to_dlq (env.answer r) r log)
    | ok vc ↦ elim (estimate_cost vc.distance_nm (from_usd vc.fees_minor) rate) [
      | err e ↦ (true, log)
      | ok cost ↦ publish_estimate r vc cost log
    ]
  ]

  -- one round of `Run`
  unfoldable pub poll :
      (List Record → Offsets → Offsets)
      → Bool
      → List Record
      → List Produced
      → Offsets
      → List Produced × Offsets
  unfolding handle
  poll = Consumer.poll handle
