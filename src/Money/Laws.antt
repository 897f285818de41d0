-- ===== src/Money/Laws.antt =====
-- `Add` and `Mul` against exact integer arithmetic.
use maritime_test_lab.Prelude.{
  ◌-◌, String, true, false, ◌||◌, if◌then◌else◌, str_eq, Result, ok, err, ◌≡◌, ◌≢◌, ◌↔◌, arith,
  refl, inl, inr, Bool-cases,
}
use maritime_test_lab.Prelude.Int.{
  ℤ, pos, negsuc, eqb_ℤ, ◌+ℤ◌, ◌*ℤ◌, wrap, half64, in_range, IsInt64, wrap_id, in_range_iff,
}
use maritime_test_lab.Prelude.Int.Division.{
  divides_back, divides_back-eq-in_range, divides_back_min,
}
use maritime_test_lab.Money.{Money, Error, overflow, currency_mismatch, add, mul}

-- the exact result where an int64 holds it, and the overflow error where not
abbrev pub within : ℤ → String → Result Error Money
within n c = if in_range half64 n then ok (record { minor = n; currency = c }) else err overflow

abbrev pub exact_add : Money → Money → Result Error Money
exact_add m other =
    if str_eq m.currency other.currency
    then within (m.minor +ℤ other.minor) m.currency
    else err currency_mismatch

abbrev pub exact_mul : Money → ℤ → Result Error Money
exact_mul m factor = within (m.minor *ℤ factor) m.currency

-- Of int64 amounts, `Add` is exact addition: the sum where it is an int64, the overflow error where
-- not, and the mismatch error for two currencies.
pub add-eq-exact_add :
    (m other : Money) → IsInt64 m.minor → IsInt64 other.minor → add m other ≡ exact_add m other
unfolding add
add-eq-exact_add m other hm ho = ground arith

-- the one product that is out of range and yet divides back
abbrev pub Wraps : Money → ℤ → Type 0
Wraps m factor = (m.minor ≡ negsuc (half64 - 1)) × (factor ≡ negsuc 0)

mul_zero :
    (m : Money) (factor : ℤ)
    → (eqb_ℤ m.minor (pos 0) || eqb_ℤ factor (pos 0)) ≡ true
    → mul m factor ≡ exact_mul m factor
unfolding mul
mul_zero m factor h = ground arith

mul_nonzero :
    (m : Money) (factor : ℤ)
    → (eqb_ℤ m.minor (pos 0) || eqb_ℤ factor (pos 0)) ≡ false
    → mul m factor ≡ (
        if divides_back m.minor factor
        then ok (record { minor = wrap half64 (m.minor *ℤ factor); currency = m.currency })
        else err overflow)
unfolding mul
mul_nonzero m factor h = rw h

nonzero_parts : (a b : ℤ) → (eqb_ℤ a (pos 0) || eqb_ℤ b (pos 0)) ≡ false → (a ≢ pos 0) × (b ≢ pos 0)
nonzero_parts a b h = ground arith

within_of_wrap :
    (z : ℤ) (c : String)
    → (if in_range half64 z
        then ok (record { minor = wrap half64 z; currency = c })
        else err overflow)
      ≡ within z c
within_of_wrap z c = elim (Bool-cases (in_range half64 z)) [
  | inl fits ↦ rw (wrap_id z ((in_range_iff half64 z).0 fits)) refl
  | inr not_fits ↦ rw not_fits refl
]

mul_exact :
    (m : Money) (factor : ℤ)
    → IsInt64 m.minor
    → IsInt64 factor
    → ¬ Wraps m factor
    → mul m factor ≡ exact_mul m factor
mul_exact m factor hm hf nw = elim (Bool-cases (eqb_ℤ m.minor (pos 0) || eqb_ℤ factor (pos 0))) [
  | inl z ↦ mul_zero m factor z
  | inr z ↦
      let (m0, f0) = nonzero_parts m.minor factor z in
      rw (mul_nonzero m factor z, divides_back-eq-in_range m.minor factor hm hf m0 f0 nw)
        (within_of_wrap (m.minor *ℤ factor) m.currency)
]

mul-Wraps : (m : Money) (factor : ℤ) → Wraps m factor → mul m factor ≡ exact_mul m factor → ⊥
unfolding mul ◌*ℤ◌
mul-Wraps m factor (p, q) e = ground (arith, divides_back_min)

-- Of int64 arguments, `Mul` is exact multiplication (the overflow error where no int64 holds the
-- product) in every case but one: the smallest int64 times -1 is returned as if it had not overflowed.
pub mul-eq-exact_mul_iff :
    (m : Money) (factor : ℤ)
    → IsInt64 m.minor
    → IsInt64 factor
    → (mul m factor ≡ exact_mul m factor) ↔ (¬ Wraps m factor)
mul-eq-exact_mul_iff m factor hm hf = (λ e w. mul-Wraps m factor w e, mul_exact m factor hm hf)
