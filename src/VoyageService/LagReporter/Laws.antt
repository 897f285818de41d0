-- ===== src/VoyageService/LagReporter/Laws.antt =====
-- What the lag gauge shows.
use maritime_test_lab.Prelude.{
  String, true, false, Option, none, some, List, [], ◌∷◌, ◌++◌, ◌≡◌, refl, arith, All, ◌∙◌,
}
use maritime_test_lab.Prelude.Int.{ℤ}
use maritime_test_lab.VoyageService.LagReporter.{GroupLag, lag_of, tick, report_lag}

-- an answer without a lag of the group
abbrev pub Silent : String → Option (List (String × GroupLag)) → Type 0
Silent group answer = (gauge : ℤ) → tick group answer gauge ≡ gauge

report_lag-append :
    (group : String) (a b : List (Option (List (String × GroupLag)))) (gauge : ℤ)
    → report_lag group (a ++ b) gauge ≡ report_lag group b (report_lag group a gauge)
unfolding report_lag
report_lag-append group [] b gauge = refl
report_lag-append group (answer ∷ a) b gauge = report_lag-append group a b (tick group answer gauge)

report_lag-Silent :
    (group : String) (ticks : List (Option (List (String × GroupLag)))) (gauge : ℤ)
    → All (Silent group) ticks
    → report_lag group ticks gauge ≡ gauge
unfolding report_lag
report_lag-Silent group [] gauge h = refl
report_lag-Silent group (answer ∷ ticks) gauge (q, h) =
    rw (q gauge) (report_lag-Silent group ticks gauge h)

-- an error of the client, a group that it does not name, and a group that it could not describe or fetch are silent
pub silent :
    (group : String) (lags : List (String × GroupLag)) (lag : GroupLag)
    → Silent group none
      × (lag_of group lags ≡ none → Silent group (some lags))
      × (lag_of group lags ≡ some lag → lag.describe_fails ≡ true → Silent group (some lags))
      × (lag_of group lags ≡ some lag → lag.fetch_fails ≡ true → Silent group (some lags))
unfolding tick
silent group lags lag =
    (λ gauge. refl, λ e gauge. ground arith, λ e h gauge. ground arith, λ e h gauge. ground arith)

-- The gauge shows the group's lag of the latest answer that had one, whatever was answered before, and however many silent answers followed.
pub report_lag-latest :
    (group : String) (before quiet : List (Option (List (String × GroupLag))))
    (lags : List (String × GroupLag)) (lag : GroupLag) (gauge : ℤ)
    → lag_of group lags ≡ some lag
    → lag.describe_fails ≡ false
    → lag.fetch_fails ≡ false
    → All (Silent group) quiet
    → report_lag group (before ++ some lags ∷ quiet) gauge ≡ lag.total
unfolding report_lag tick
report_lag-latest group before quiet lags lag gauge e d f h =
    report_lag-append group before (some lags ∷ quiet) gauge
    ∙ report_lag-Silent group quiet (tick group (some lags) (report_lag group before gauge)) h
    ∙ ground arith
