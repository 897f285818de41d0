-- ===== src/Tests/Config.antt =====
-- internal/env and the estimator's configuration on small inputs.
use maritime_test_lab.Prelude.{some, [], ◌∷◌, err, ◌≡◌, ◌≢◌, refl, if◌then◌else◌, str_eq}
use maritime_test_lab.Prelude.Int.{ℤ, pos, negsuc, IsInt64, ◌<ℤ◌}
use maritime_test_lab.Money.{Money, from_usd}
use maritime_test_lab.Estimate
use maritime_test_lab.Estimate.{estimate_cost}
use maritime_test_lab.Config.{Environment, or, list, keep_items, split_commas}
use maritime_test_lab.Config.Estimator.{Config, load_config, validate, parse_int, digits}
use maritime_test_lab.Config.Estimator.Laws.{load_config-priced}

abbrev getenv : Environment
getenv key =
    if str_eq key "KAFKA_BROKERS"
    then " host1:9092,, host2:9092 "
    else if str_eq key "RATE_PER_NM_MINOR"
    then "+120"
    else ""

brokers : list getenv "KAFKA_BROKERS" "" ≡ "host1:9092" ∷ "host2:9092" ∷ []
unfolding list keep_items split_commas
brokers = refl

negative : parse_int "-7" ≡ some (negsuc 6)
unfolding parse_int digits
negative = refl

abbrev config : Config
config = record {
  grpc_addr = ":9001";
  kafka_brokers = "host1:9092" ∷ "host2:9092" ∷ [];
  schema_registry_url = "http://localhost:18081";
  rate_per_nm_minor = pos 120;
  otlp_endpoint = "";
}

load_config-priced_example :
    IsInt64 (pos 120)
    × (pos 0 <ℤ pos 120)
    × ((distance_nm : ℤ) (fees : Money)
        → estimate_cost distance_nm fees (from_usd (pos 120)) ≢ err Estimate.non_positive_rate)
unfolding load_config validate list keep_items split_commas parse_int digits or
load_config-priced_example = load_config-priced getenv config refl refl
