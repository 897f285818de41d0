-- ===== src/System.antt =====
-- The services together, as services/voyage/app/app.go and services/estimator/app/app.go start them: the handlers of the voyage
-- service, its poller, its consumer and the estimator's consumer, one call at a time in any order, over one database and one broker.
pub mod Sources
pub mod Anchors
pub mod Prices
pub mod Genuine
pub mod Reachable
pub mod Stale
pub mod Tables
pub mod Evolution
pub mod Delivery
pub mod Exact
pub mod Acknowledged
pub mod Posted
pub mod Sync
use maritime_test_lab.Prelude.{ℕ, List, [], ◌∷◌, ◌++◌, ◌≡◌}
use maritime_test_lab.Money.{Money}
use maritime_test_lab.Voyage.{Voyage}
use maritime_test_lab.Serde.{Serde, Codec}
use maritime_test_lab.Events.{VoyageCreated, EstimateReady, voyage_created_encoder}
use maritime_test_lab.Kafka.{Record, Produced}
use maritime_test_lab.Topic
use maritime_test_lab.Repository
use maritime_test_lab.Outbox.{PollEnv, Relay, flush}
use maritime_test_lab.Estimator.Consumer as Pricing
use maritime_test_lab.VoyageService.Consumer as Applying
use maritime_test_lab.VoyageService.Consumer.{Site}

-- empty tables and an empty broker
abbrev pub start : Site
start = record {
  state = Repository.empty;
  log = [];
  metrics = record {
    estimate_applied = 0;
    estimate_errors = 0;
    dlq_depth = 0;
    estimate_latency = [];
  };
}

-- the state after a pass of the poller
abbrev pub relayed : PollEnv → Site → Site
relayed env w =
    let t : Relay = (flush env (record { db = w.state.db; log = w.log })).1 in
    record w { state = record w.state { db = t.db }; log = t.log }

-- the state after a pass for each tick
abbrev pub ticked : List PollEnv → Site → Site
ticked [] w = w
ticked (env ∷ ticks) w = ticked ticks (relayed env w)

module _ (created : Codec VoyageCreated) (ready : Codec EstimateReady) (serde : Serde)
    (rate : Money) where
  -- One call of one part. A consumer is handed a record whose bytes the broker holds on its topic, which may be one that it
  -- was handed before.
  pub data Step (w t : Site) : Type 0 where
    create :
        (env : Repository.Env) (v : Voyage)
        → t ≡ record w {
          state = (Repository.create (voyage_created_encoder created serde) env v w.state).1;
        }
        → Step w t
    update :
        (env : Repository.Env) (v : Voyage)
        → t ≡ record w { state = (Repository.update env v w.state).1 }
        → Step w t
    relay : (env : PollEnv) → t ≡ relayed env w → Step w t
    price :
        (env : Pricing.Env) (r : Record) (before after : List Produced)
        → w.log ≡ before ++ record { topic = Topic.voyage_created; value = r.value } ∷ after
        → t ≡ record w { log = (Pricing.handle created ready serde rate env r w.log).1 }
        → Step w t
    apply :
        (env : Applying.Env) (r : Record) (before after : List Produced)
        → w.log ≡ before ++ record { topic = Topic.estimate_ready; value = r.value } ∷ after
        → t ≡ (Applying.handle ready serde env r w).1
        → Step w t

  -- the states that calls lead to
  pub data Reaches : Site → Type 0 where
    here : Reaches start
    step : {w t : Site} → Reaches w → Step w t → Reaches t

  -- the calls that lead from one state to another
  pub data Steps (w : Site) : Site → Type 0 where
    done : Steps w w
    next : {t u : Site} → Steps w t → Step t u → Steps w u
