-- ===== src/Estimate.antt =====
-- services/estimator/domain/estimate.go: the price of a voyage leg.
pub mod Laws
use maritime_test_lab.Prelude.{Result, ok, err, map_err, ◌>>=◌, if◌then◌else◌, not}
use maritime_test_lab.Prelude.Int.{ℤ, pos, ltb_ℤ}
use maritime_test_lab.Money
use maritime_test_lab.Money.{Money}

pub data Error : Type 0 where
  negative_distance non_positive_rate : Error
  money : Money.Error → Error

unfoldable pub estimate_cost : ℤ → Money → Money → Result Error Money
estimate_cost distance_nm fees rate_per_nm =
    if ltb_ℤ distance_nm (pos 0)
    then err negative_distance
    else if not (ltb_ℤ (pos 0) rate_per_nm.minor)
    then err non_positive_rate
    else do
      base ← map_err money (Money.mul rate_per_nm distance_nm)
      map_err money (Money.add base fees)
