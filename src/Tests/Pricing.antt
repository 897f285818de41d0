-- ===== src/Tests/Pricing.antt =====
-- internal/money and services/estimator/domain on small inputs.
use maritime_test_lab.Prelude.{◌-◌, ok, err, ◌≡◌, ◌↔◌, refl, arith}
use maritime_test_lab.Prelude.Int.{pos, negsuc, half64, ◌*ℤ◌}
use maritime_test_lab.Money.{Money, add, mul, overflow, currency_mismatch}
use maritime_test_lab.Money.Laws.{exact_mul, mul-eq-exact_mul_iff, Wraps}
use maritime_test_lab.Estimate.{estimate_cost, negative_distance, money}
use maritime_test_lab.Estimate.Laws.{estimate_cost-eq-exact_cost}

abbrev dollars : Money
dollars = record { minor = pos 150; currency = "USD" }

abbrev euros : Money
euros = record { minor = pos 150; currency = "EUR" }

abbrev most : Money
most = record { minor = pos (half64 - 1); currency = "USD" }

abbrev least : Money
least = record { minor = negsuc (half64 - 1); currency = "USD" }

add_mismatch : add dollars euros ≡ err currency_mismatch
unfolding add
add_mismatch = refl

mul-least : mul least (negsuc 0) ≡ ok least
unfolding mul
mul-least = refl

cost :
    estimate_cost (pos 10) dollars (record { minor = pos 100; currency = "USD" })
    ≡ ok (record { minor = pos 1150; currency = "USD" })
unfolding estimate_cost mul add
cost = refl

cost_negative : estimate_cost (negsuc 0) dollars dollars ≡ err negative_distance
unfolding estimate_cost
cost_negative = refl

cost_overflow : estimate_cost (pos 2) dollars most ≡ err (money overflow)
unfolding estimate_cost mul
cost_overflow = refl

mul-eq-exact_mul_iff_example :
    (mul least (negsuc 0) ≡ exact_mul least (negsuc 0)) ↔ (¬ Wraps least (negsuc 0))
mul-eq-exact_mul_iff_example = mul-eq-exact_mul_iff least (negsuc 0) (omega arith) (omega arith)

estimate_cost-eq-exact_cost_example :
    estimate_cost (pos 7) dollars euros ≡ err (money currency_mismatch)
unfolding ◌*ℤ◌
estimate_cost-eq-exact_cost_example =
    estimate_cost-eq-exact_cost (pos 7) dollars euros (omega arith) (omega arith) (omega arith)
