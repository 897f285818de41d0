-- ===== src/Estimate/Laws.antt =====
-- The price against exact arithmetic, and what follows for its clients.
use maritime_test_lab.Prelude.{
  sym, ◌∙◌, false, if◌then◌else◌, str_eq, eq_iff, Result, ok, err, map_err, ◌≡◌, arith, refl, inl,
  inr, Bool-cases,
}
use maritime_test_lab.Prelude.Int.{
  ℤ, pos, ltb_ℤ, ◌+ℤ◌, ◌*ℤ◌, ◌≤ℤ◌, *ℤ-le_left, +ℤ-le_right, half64, in_range, IsInt64, IsInt32,
  in_range_iff,
}
use maritime_test_lab.Money
use maritime_test_lab.Money.{Money, from_usd, usd}
use maritime_test_lab.Money.Laws.{within, exact_mul, add-eq-exact_add, mul-eq-exact_mul_iff}
use maritime_test_lab.Estimate.{Error, negative_distance, non_positive_rate, money, estimate_cost}

-- distance * rate + fees over the integers, with every reason to refuse in the order of the code
abbrev pub exact_cost : ℤ → Money → Money → Result Error Money
exact_cost distance fees rate =
    if ltb_ℤ distance (pos 0)
    then err negative_distance
    else if ltb_ℤ (pos 0) rate.minor
    then (if in_range half64 (rate.minor *ℤ distance)
        then (if str_eq rate.currency fees.currency
            then map_err money (within (rate.minor *ℤ distance +ℤ fees.minor) rate.currency)
            else err (money Money.currency_mismatch))
        else err (money Money.overflow))
    else err non_positive_rate

module _ (distance : ℤ) (fees rate : Money) (hd : IsInt32 distance) (hf : IsInt64 fees.minor)
    (hr : IsInt64 rate.minor) where
  priced : ltb_ℤ distance (pos 0) ≡ false → Money.mul rate distance ≡ exact_mul rate distance
  priced d = (mul-eq-exact_mul_iff rate distance hr (ground arith)).1 (λ w. ground arith)

  -- The price is distance * rate + fees, computed exactly, or the error of the first rule that fails: a negative
  -- distance, a rate that is not positive, a product out of int64, two currencies, a sum out of int64.
  pub estimate_cost-eq-exact_cost : estimate_cost distance fees rate ≡ exact_cost distance fees rate
  unfolding estimate_cost
  estimate_cost-eq-exact_cost = elim (Bool-cases (ltb_ℤ distance (pos 0))) [
    | inl neg ↦ rw neg refl
    | inr d ↦
        rw (d, priced d)
          (ground (
            arith,
            add-eq-exact_add (record { minor = rate.minor *ℤ distance; currency = rate.currency })
                fees,
          ))
  ]

-- a price is exact, and in the currency that rate and fees share
pub priced_exact :
    (distance : ℤ) (fees rate p : Money)
    → exact_cost distance fees rate ≡ ok p
    → (pos 0 ≤ℤ distance)
      × (p.minor ≡ rate.minor *ℤ distance +ℤ fees.minor)
      × (p.currency ≡ rate.currency)
      × (fees.currency ≡ rate.currency)
      × (pos 0 ≤ℤ rate.minor)
priced_exact distance fees rate p e = ground (arith, eq_iff rate.currency fees.currency)

pub priced_fits :
    (distance : ℤ) (fees rate p : Money) → exact_cost distance fees rate ≡ ok p → IsInt64 p.minor
priced_fits distance fees rate p e =
    ground (arith, in_range_iff half64 (rate.minor *ℤ distance +ℤ fees.minor))

-- A longer leg never costs less, and a price is in the currency of both the rate and the fees.
pub estimate_cost_mono :
    (d e : ℤ) (fees rate p q : Money)
    → IsInt32 d
    → IsInt32 e
    → IsInt64 fees.minor
    → IsInt64 rate.minor
    → d ≤ℤ e
    → estimate_cost d fees rate ≡ ok p
    → estimate_cost e fees rate ≡ ok q
    → (p.minor ≤ℤ q.minor) × (p.currency ≡ q.currency) × (q.currency ≡ fees.currency)
estimate_cost_mono d e fees rate p q hd he hf hr le cp cq = ground (
  arith,
  priced_exact d fees rate p (sym (estimate_cost-eq-exact_cost d fees rate hd hf hr) ∙ cp),
  priced_exact e fees rate q (sym (estimate_cost-eq-exact_cost e fees rate he hf hr) ∙ cq),
  *ℤ-le_left rate.minor d e,
  +ℤ-le_right (rate.minor *ℤ d) (rate.minor *ℤ e) fees.minor,
)
