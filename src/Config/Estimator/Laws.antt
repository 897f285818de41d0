-- ===== src/Config/Estimator/Laws.antt =====
-- What an accepted configuration of the estimator guarantees.
use maritime_test_lab.Prelude.{
  ℕ, String, true, Option, none, some, Result, ok, err, ◌≡◌, ◌≢◌, arith, Option-cases, inl, inr,
  Bool-cases, map_err, ◌>>=◌,
}
use maritime_test_lab.Prelude.Int.{ℤ, pos, half64, IsInt64, in_range_iff, ltb_ℤ, ◌<ℤ◌, neg_ℤ}
use maritime_test_lab.Money.{Money, from_usd}
use maritime_test_lab.Money
use maritime_test_lab.Estimate
use maritime_test_lab.Estimate.{estimate_cost}
use maritime_test_lab.Config.{Environment, or}
use maritime_test_lab.Config.Estimator.{Config, load_config, validate, parse_int, signed, digits}

signed-IsInt64 : (sign : ℕ → ℤ) (o : Option ℕ) (z : ℤ) → signed sign o ≡ some z → IsInt64 z
signed-IsInt64 sign none z e = cc
signed-IsInt64 sign (some n) z e = ground (arith, (in_range_iff half64 (sign n)).0)

parse_int-IsInt64 : (s : String) (z : ℤ) → parse_int s ≡ some z → IsInt64 z
unfolding parse_int
parse_int-IsInt64 String.[] z e = cc
parse_int-IsInt64 (String.◌∷◌ c s) z e = ground (
  arith,
  signed-IsInt64 pos (digits 0 s) z,
  signed-IsInt64 (λ n. neg_ℤ (pos n)) (digits 0 s) z,
  signed-IsInt64 pos (digits 0 (String.◌∷◌ c s)) z,
)

loaded :
    (getenv : Environment) (cfg : Config)
    → load_config getenv ≡ ok cfg
    → IsInt64 cfg.rate_per_nm_minor
unfolding load_config
loaded getenv cfg e = elim (Option-cases (parse_int (or getenv "RATE_PER_NM_MINOR" "100"))) [
  | inl h ↦ ground arith
  | inr (z, h) ↦ ground (arith, parse_int-IsInt64 (or getenv "RATE_PER_NM_MINOR" "100") z h)
]

validate-positive :
    (cfg : Config) → validate cfg ≡ none → ltb_ℤ (pos 0) cfg.rate_per_nm_minor ≡ true
unfolding validate
validate-positive cfg e = ground arith

mapped : (r : Result Money.Error Money) → map_err Estimate.money r ≢ err Estimate.non_positive_rate
mapped (ok m) e = cc
mapped (err x) e = cc

then_mapped :
    (r : Result Money.Error Money) (f : Money → Result Estimate.Error Money)
    → ((m : Money) → f m ≢ err Estimate.non_positive_rate)
    → (map_err Estimate.money r >>= f) ≢ err Estimate.non_positive_rate
then_mapped (ok m) f h e = h m e
then_mapped (err x) f h e = cc

-- a positive rate is not refused
accepted :
    (distance_nm : ℤ) (fees rate : Money)
    → ltb_ℤ (pos 0) rate.minor ≡ true
    → estimate_cost distance_nm fees rate ≢ err Estimate.non_positive_rate
unfolding estimate_cost
accepted distance_nm fees rate h = elim (Bool-cases (ltb_ℤ distance_nm (pos 0))) [
  | inl e ↦ rw (e, estimate_cost) (λ x. cc)
  | inr e ↦
      rw (e, h, estimate_cost)
        (then_mapped (Money.mul rate distance_nm)
          (λ base. map_err Estimate.money (Money.add base fees))
          (λ base. mapped (Money.add base fees)))
]

-- If the environment's configuration loads and validates, its rate is a positive int64, and no voyage is refused for its rate.
pub load_config-priced :
    (getenv : Environment) (cfg : Config)
    → load_config getenv ≡ ok cfg
    → validate cfg ≡ none
    → IsInt64 cfg.rate_per_nm_minor
      × (pos 0 <ℤ cfg.rate_per_nm_minor)
      × ((distance_nm : ℤ) (fees : Money)
          → estimate_cost distance_nm fees (from_usd cfg.rate_per_nm_minor)
            ≢ err Estimate.non_positive_rate)
unfolding from_usd
load_config-priced getenv cfg e v = (
  loaded getenv cfg e,
  ground (arith, validate-positive cfg v),
  λ distance_nm fees.
      accepted distance_nm fees (from_usd cfg.rate_per_nm_minor) (validate-positive cfg v),
)
