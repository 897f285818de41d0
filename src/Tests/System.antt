-- ===== src/Tests/System.antt =====
-- The services together: a voyage is created, announced, priced, and its price is applied.
use maritime_test_lab.Prelude.{
  Bool, false, none, some, [], ◌∷◌, ok, ◌≡◌, refl, arith, All, ◌==◌, if◌then◌else◌, str_eq, eq_iff,
  ◌&&◌,
}
use maritime_test_lab.Prelude.Int.{pos, eqb_ℤ, eqb_ℤ_iff, IsInt64, ◌*ℤ◌, ◌+ℤ◌, ◌≤ℤ◌}
use maritime_test_lab.Money.{Money, mul, add, from_usd}
use maritime_test_lab.Estimate.{estimate_cost}
use maritime_test_lab.Kafka.{Record, acked}
use maritime_test_lab.Serde.{Serde, Codec, lookup}
use maritime_test_lab.Serde
use maritime_test_lab.Serde.Laws.{RoundTrips}
use maritime_test_lab.Events.{
  VoyageCreated, EstimateReady, to_voyage_created, build_estimate_ready, voyage_created_encoder,
}
use maritime_test_lab.Voyage.{Voyage}
use maritime_test_lab.Repository
use maritime_test_lab.Outbox.{PollEnv}
use maritime_test_lab.Outbox
use maritime_test_lab.Estimator.Consumer as Pricing
use maritime_test_lab.VoyageService.Consumer as Applying
use maritime_test_lab.VoyageService.Consumer.{Site}
use maritime_test_lab.System.{Step, Reaches, start, relayed, Steps}
use maritime_test_lab.System.Prices.{Priced}
use maritime_test_lab.System.Tables.{Orderly, reached-Orderly}
use maritime_test_lab.System.Reachable.{reached_rows-Priced}
use maritime_test_lab.Kafka.Log.{Holds}
use maritime_test_lab.Repository.{Row, find}
use maritime_test_lab.System.Delivery.Eventually.{create_priced}
use maritime_test_lab.Outbox.Delivery.{Healthy}
use maritime_test_lab.System.Exact.{reached-exact}

abbrev voyage_7 : VoyageCreated
voyage_7 = record {
  client_request_id = "a";
  origin = "NLRTM";
  dest = "SGSIN";
  distance_nm = pos 7;
  fees_minor = pos 150;
  version = pos 1;
}

abbrev is_voyage_7 : VoyageCreated → Bool
is_voyage_7 v =
    str_eq v.client_request_id "a"
    && (str_eq v.origin "NLRTM"
        && (str_eq v.dest "SGSIN"
            && (eqb_ℤ v.distance_nm (pos 7)
                && (eqb_ℤ v.fees_minor (pos 150) && eqb_ℤ v.version (pos 1)))))

-- a codec of one voyage
abbrev pub voyages : Codec VoyageCreated
voyages = record {
  name = "voyage";
  marshal = λ v. if is_voyage_7 v then some (7 ∷ []) else none;
  unmarshal = λ body. some voyage_7;
}

pub voyages-RoundTrips : RoundTrips voyages
voyages-RoundTrips v body e = ground (
  arith,
  eq_iff v.client_request_id "a",
  eq_iff v.origin "NLRTM",
  eq_iff v.dest "SGSIN",
  eqb_ℤ_iff v.distance_nm (pos 7),
  eqb_ℤ_iff v.fees_minor (pos 150),
  eqb_ℤ_iff v.version (pos 1),
)

abbrev estimate_850 : EstimateReady
estimate_850 = record {
  voyage_id = "a";
  voyage_version = pos 1;
  amount_minor = pos 850;
  currency = "USD";
  calculated_at = 9;
}

abbrev is_estimate_850 : EstimateReady → Bool
is_estimate_850 e =
    str_eq e.voyage_id "a"
    && (eqb_ℤ e.voyage_version (pos 1)
        && (eqb_ℤ e.amount_minor (pos 850) && (str_eq e.currency "USD" && e.calculated_at == 9)))

-- a codec of one estimate
abbrev pub estimates : Codec EstimateReady
estimates = record {
  name = "estimate";
  marshal = λ e. if is_estimate_850 e then some (8 ∷ []) else none;
  unmarshal = λ body. some estimate_850;
}

pub estimates-RoundTrips : RoundTrips estimates
estimates-RoundTrips v body e = ground (
  arith,
  eq_iff v.voyage_id "a",
  eqb_ℤ_iff v.voyage_version (pos 1),
  eqb_ℤ_iff v.amount_minor (pos 850),
  eq_iff v.currency "USD",
)

abbrev pub serde : Serde
serde = ("voyage", 1) ∷ ("estimate", 2) ∷ []

abbrev pub rate : Money
rate = record { minor = pos 100; currency = "USD" }

abbrev pub calm : Repository.Env
calm = record {
  now = 5;
  begin_fails = false;
  query_fails = false;
  exec_fails = false;
  commit = Repository.committed;
  read_fails = false;
  carrier = ok [];
}

abbrev pub healthy : PollEnv
healthy = record {
  now = 6;
  query_fails = false;
  ack = λ n. acked;
  mark = λ n. Repository.committed;
}

abbrev pricing : Pricing.Env
pricing = record { now = λ r. 9; answer = λ r. acked }

abbrev applying : Applying.Env
applying = record { repository = λ r. calm; answer = λ r. acked; now = λ r. 12 }

abbrev pub sailing : Voyage
sailing = record {
  client_request_id = "a";
  origin = "NLRTM";
  dest = "SGSIN";
  distance_nm = pos 7;
  fees_minor = pos 150;
  version = pos 0;
  estimate_minor = pos 0;
}

abbrev event : Record
event = record { partition = 0; offset = 0; value = 0 ∷ 0 ∷ 0 ∷ 0 ∷ 1 ∷ 7 ∷ [] }

abbrev ready : Record
ready = record { partition = 0; offset = 0; value = 0 ∷ 0 ∷ 0 ∷ 0 ∷ 2 ∷ 8 ∷ [] }

-- the states behind the four calls
abbrev pub stored : Site
stored = record start {
  state =
      (Repository.create (voyage_created_encoder voyages serde) calm sailing Repository.empty).1;
}

abbrev announced : Site
announced = relayed healthy stored

abbrev priced : Site
priced = record announced {
  log = (Pricing.handle voyages estimates serde rate pricing event announced.log).1;
}

abbrev pub applied : Site
applied = (Applying.handle estimates serde applying ready priced).1

announced_log : announced.log ≡ record { topic = "voyage.created"; value = event.value } ∷ []
unfolding Repository.create Repository.find Repository.scan_voyage voyage_created_encoder
    to_voyage_created Serde.encode lookup Outbox.flush Outbox.unpublished Outbox.publish_all
    Outbox.where_unpublished Outbox.order_by_id Outbox.take
announced_log = refl

priced_log :
    priced.log
    ≡ record { topic = "voyage.created"; value = event.value }
      ∷ record { topic = "estimate.ready"; value = ready.value }
      ∷ []
unfolding Repository.create Repository.find Repository.scan_voyage voyage_created_encoder
    to_voyage_created Serde.encode lookup Outbox.flush Outbox.unpublished Outbox.publish_all
    Outbox.where_unpublished Outbox.order_by_id Outbox.take Pricing.handle Serde.decode
    estimate_cost mul add from_usd build_estimate_ready
priced_log = refl

pub reached : Reaches voyages estimates serde rate applied
reached =
    Reaches.step
      (Reaches.step
        (Reaches.step (Reaches.step Reaches.here (Step.create calm sailing refl))
          (Step.relay healthy refl))
        (Step.price pricing event [] [] announced_log refl))
      (Step.apply applying ready (record { topic = "voyage.created"; value = event.value } ∷ []) []
        priced_log refl)

reached_rows-Priced_example : All (Priced voyages serde rate applied.log) applied.state.voyages
unfolding lookup
reached_rows-Priced_example =
    reached_rows-Priced voyages estimates serde rate voyages-RoundTrips estimates-RoundTrips 1 2
      refl refl applied reached

reached-Orderly_example : Orderly applied
reached-Orderly_example = reached-Orderly voyages estimates serde rate applied reached

abbrev created_voyage : Voyage
created_voyage = record sailing { version = pos 1 }

healthy-Healthy : Healthy healthy
healthy-Healthy = record { query = refl; ack = λ n. refl; mark = λ n. refl }

create_priced_example :
    Holds (record { topic = "voyage.created"; value = event.value }) announced.log
    × Holds (record { topic = "estimate.ready"; value = ready.value }) priced.log
    × ((r : Row) × (find "a" applied.state.voyages ≡ some r)
        × (r.version ≡ pos 1 → r.estimate_minor ≡ some (pos 850)))
unfolding Repository.create Repository.find Repository.scan_voyage voyage_created_encoder
    to_voyage_created Serde.encode lookup Outbox.where_unpublished estimate_cost mul add from_usd
    build_estimate_ready
create_priced_example =
    create_priced voyages estimates serde rate voyages-RoundTrips estimates-RoundTrips 1 2 refl refl
      start stored announced priced applied calm sailing created_voyage (healthy ∷ []) pricing
      applying event ready (record { minor = pos 850; currency = "USD" }) Reaches.here refl refl
      Steps.done (healthy-Healthy, tt) (omega arith) Steps.done refl refl refl Steps.done refl refl
      refl Steps.done

abbrev priced_a : Row
priced_a = record {
  client_request_id = "a";
  origin = "NLRTM";
  dest = "SGSIN";
  distance_nm = pos 7;
  fees_minor = pos 150;
  version = pos 1;
  estimate_minor = some (pos 850);
  created_at = 5;
}

applied_row : find "a" applied.state.voyages ≡ some priced_a
unfolding find Repository.create Repository.scan_voyage voyage_created_encoder to_voyage_created
    Serde.encode Serde.decode lookup Outbox.flush Outbox.publish_all Outbox.unpublished Outbox.take
    Outbox.order_by_id Outbox.where_unpublished Repository.upsert_estimate Applying.handle
    Repository.first_where Repository.update_where
applied_row = refl

reached-exact_example :
    (pos 850 ≡ pos 100 *ℤ pos 7 +ℤ pos 150)
    × IsInt64 (pos 850)
    × (pos 0 ≤ℤ pos 7)
    × ("USD" ≡ (from_usd (pos 150)).currency)
unfolding lookup
reached-exact_example =
    reached-exact voyages estimates serde rate voyages-RoundTrips estimates-RoundTrips 1 2 refl refl
      applied "a" priced_a (pos 850) reached applied_row refl refl (omega arith) (omega arith)
      (omega arith)
