-- ===== src/MetricNames.antt =====
-- internal/metricnames/metricnames.go, and the metrics that services/voyage/adapters/kafka/metrics.go and
-- services/voyage/adapters/postgres/metrics.go register under them.
use maritime_test_lab.Prelude.{
  String, Bool, false, Option, none, some, List, [], ◌∷◌, if◌then◌else◌, str_eq, ◌||◌,
}

abbrev pub create_dedupe : String
create_dedupe = "voyage_create_dedupe_total"

abbrev pub estimate_applied : String
estimate_applied = "voyage_estimate_applied_total"

abbrev pub estimate_errors : String
estimate_errors = "voyage_estimate_errors_total"

abbrev pub estimate_latency : String
estimate_latency = "voyage_estimate_latency_seconds"

abbrev pub dlq_depth : String
dlq_depth = "voyage_dlq_depth"

abbrev pub consumer_lag : String
consumer_lag = "voyage_consumer_lag"

abbrev pub is_in : String → List String → Bool
is_in name [] = false
is_in name (n ∷ names) = str_eq n name || is_in name names

-- `promauto`, which panics at a name that is registered already
unfoldable pub register : List String → List String → Option (List String)
register [] registry = some registry
register (name ∷ names) registry =
    let rest = register names (name ∷ registry) in if is_in name registry then none else rest

-- what is registered while the voyage service's packages are initialised: postgres before kafka, each in the order of its declarations
unfoldable pub init_metrics : List String → Option (List String)
unfolding register
init_metrics = register (
    create_dedupe ∷ estimate_applied ∷ estimate_errors ∷ estimate_latency ∷ dlq_depth ∷ consumer_lag
    ∷ [])
