-- ===== src/VoyageService/Consumer.antt =====
-- services/voyage/adapters/kafka/estimate_consumer.go: applies estimate.ready to the voyages.
pub mod Redelivered
use maritime_test_lab.Prelude.{
  ℕ, suc, String, Bool, true, false, Option, none, some, List, Result, ok, err, [], ◌∷◌,
}
use maritime_test_lab.Prelude.Int.{ℤ, sub_ℕ}
use maritime_test_lab.Kafka.{Record, Produced, Ack, append_log, Offsets}
use maritime_test_lab.Topic
use maritime_test_lab.Serde.{Serde, Codec}
use maritime_test_lab.Serde
use maritime_test_lab.Voyage.{Error}
use maritime_test_lab.Events.{EstimateReady}
use maritime_test_lab.Repository.{State, upsert_estimate}
use maritime_test_lab.Repository
use maritime_test_lab.Consumer

-- what the repository, the broker and the clock answer while a record is handled
pub record Env : Type 0 where
  pub repository : Record → Repository.Env
  pub answer : Record → Ack
  pub now : Record → ℕ

-- the counters, the gauge and the histogram of metrics.go: the times that it observed, the latest first
pub record Metrics : Type 0 where
  pub estimate_applied : ℕ
  pub estimate_errors : ℕ
  pub dlq_depth : ℕ
  pub estimate_latency : List ℤ

pub record Site : Type 0 where
  pub state : State
  pub log : List Produced
  pub metrics : Metrics

abbrev pub estimate_consumer_group : String
estimate_consumer_group = "voyage-service"

unfoldable pub to_dlq : Ack → Record → List Produced → List Produced
to_dlq answer r log =
    append_log answer (record { topic = Topic.estimate_ready_dlq; value = r.value }) log

-- what follows the upsert; `time.Since` is the clock less the instant of the creation
unfoldable pub applied : ℕ → Result Error (Option ℕ) × State → Site → Bool × Site
applied now (err e, t) s = (
  false,
  record s {
    state = t;
    metrics = record s.metrics { estimate_errors = suc s.metrics.estimate_errors };
  },
)
applied now (ok none, t) s = (true, record s { state = t })
applied now (ok (some created_at), t) s = (
  true,
  record s {
    state = t;
    metrics = record s.metrics {
      estimate_applied = suc s.metrics.estimate_applied;
      estimate_latency = sub_ℕ now created_at ∷ s.metrics.estimate_latency;
    };
  },
)

module _ (ready : Codec EstimateReady) (serde : Serde) (env : Env) where
  unfoldable pub handle : Record → Site → Bool × Site
  unfolding applied to_dlq
  handle r s = elim (Serde.decode ready serde r.value) [
    | err e ↦ (
      true,
      record s {
        log = to_dlq (env.answer r) r s.log;
        metrics = record s.metrics {
          estimate_errors = suc s.metrics.estimate_errors;
          dlq_depth = suc s.metrics.dlq_depth;
        };
      },
    )
    | ok er ↦
        applied (env.now r)
          (upsert_estimate (env.repository r) er.voyage_id er.voyage_version er.amount_minor
            s.state)
          s
  ]

  -- one round of `Run`
  unfoldable pub poll :
      (List Record → Offsets → Offsets) → Bool → List Record → Site → Offsets → Site × Offsets
  unfolding handle
  poll = Consumer.poll handle
