-- ===== src/VoyageService/LagReporter.antt =====
-- services/voyage/adapters/kafka/lagreporter.go. What the admin client answers at each tick is a parameter; the gauge holds the
-- number, which a float64 holds exactly below 2 ^ 53.
pub mod Laws
use maritime_test_lab.Prelude.{
  String, Bool, true, false, Option, none, some, List, [], ◌∷◌, if◌then◌else◌, str_eq, ◌&&◌, not,
}
use maritime_test_lab.Prelude.Int.{ℤ}

-- what is known of one group: whether its description or the fetch of its offsets failed, and its total lag
pub record GroupLag : Type 0 where
  pub describe_fails : Bool
  pub fetch_fails : Bool
  pub total : ℤ

-- `lags[group]`
unfoldable pub lag_of : String → List (String × GroupLag) → Option GroupLag
lag_of group [] = none
lag_of group ((name, lag) ∷ rest) = if str_eq name group then some lag else lag_of group rest

abbrev pub set : Option GroupLag → ℤ → ℤ
set none gauge = gauge
set (some lag) gauge = if not lag.describe_fails && not lag.fetch_fails then lag.total else gauge

-- one tick; `none` is an error of the admin client
unfoldable pub tick : String → Option (List (String × GroupLag)) → ℤ → ℤ
unfolding lag_of
tick group none gauge = gauge
tick group (some lags) gauge = set (lag_of group lags) gauge

-- the gauge when the context is cancelled
unfoldable pub report_lag : String → List (Option (List (String × GroupLag))) → ℤ → ℤ
unfolding tick
report_lag group [] gauge = gauge
report_lag group (answer ∷ ticks) gauge = report_lag group ticks (tick group answer gauge)
