-- ===== src/Prelude/Int/Division.antt =====
-- Go's overflow test for a product: multiply with wrap-around, divide back, and compare.
use Prim.Native.Nat.{ℕ, zero, suc, ◌+◌, ◌-◌, ◌*◌, ◌%◌}
use mathlib.Core.Path.{◌≡◌}
use mathlib.Core.Logic.{◌≢◌}
use mathlib.Core.Bool.{Bool, true}
use native.Mathlib.Nat.{mul-div-le, mul-div_cancel}
use native.Mathlib.Omega.{arith}
use maritime_test_lab.Prelude.Int.{
  ℤ, pos, negsuc, ◌*ℤ◌, wrap, tdiv, half64, in_range, IsInt64, eqb_ℤ,
}

abbrev pub divides_back : ℤ → ℤ → Bool
divides_back a b = eqb_ℤ (wrap half64 (tdiv (wrap half64 (a *ℤ b)) b)) a

module _ (m n : ℕ) where
  back_pos-pos :
      IsInt64 (pos (suc m))
      → IsInt64 (pos (suc n))
      → divides_back (pos (suc m)) (pos (suc n)) ≡ in_range half64 (pos (suc m) *ℤ pos (suc n))
  unfolding wrap tdiv ◌*ℤ◌
  back_pos-pos hm hn = ground (
    arith,
    mul-div-le ((suc m * suc n) % (half64 + half64)) (suc n),
    mul-div_cancel (suc m) {n = suc n},
  )

  back_pos-negsuc :
      IsInt64 (pos (suc m))
      → IsInt64 (negsuc n)
      → divides_back (pos (suc m)) (negsuc n) ≡ in_range half64 (pos (suc m) *ℤ negsuc n)
  unfolding wrap tdiv ◌*ℤ◌
  back_pos-negsuc hm hn = ground (arith, mul-div_cancel (suc m) {n = suc n})

  back_negsuc-pos :
      IsInt64 (negsuc m)
      → IsInt64 (pos (suc n))
      → divides_back (negsuc m) (pos (suc n)) ≡ in_range half64 (negsuc m *ℤ pos (suc n))
  unfolding wrap tdiv ◌*ℤ◌
  back_negsuc-pos hm hn = ground (arith, mul-div_cancel (suc m) {n = suc n})

  back_negsuc-negsuc :
      IsInt64 (negsuc m)
      → IsInt64 (negsuc n)
      → ¬ ((m ≡ half64 - 1) × (n ≡ 0))
      → divides_back (negsuc m) (negsuc n) ≡ in_range half64 (negsuc m *ℤ negsuc n)
  unfolding wrap tdiv ◌*ℤ◌
  back_negsuc-negsuc hm hn nw = ground (arith, mul-div_cancel (suc m) {n = suc n})

-- Of two factors that are not 0, the test tells exactly when the product is in range, but for the
-- smallest integer times -1.
pub divides_back-eq-in_range :
    (a b : ℤ)
    → IsInt64 a
    → IsInt64 b
    → a ≢ pos 0
    → b ≢ pos 0
    → ¬ ((a ≡ negsuc (half64 - 1)) × (b ≡ negsuc 0))
    → divides_back a b ≡ in_range half64 (a *ℤ b)
divides_back-eq-in_range (pos zero) b ha hb a0 b0 nw = absurd (a0 (ground arith))
divides_back-eq-in_range (pos (suc m)) (pos zero) ha hb a0 b0 nw = absurd (b0 (ground arith))
divides_back-eq-in_range (pos (suc m)) (pos (suc n)) ha hb a0 b0 nw = back_pos-pos m n ha hb
divides_back-eq-in_range (pos (suc m)) (negsuc n) ha hb a0 b0 nw = back_pos-negsuc m n ha hb
divides_back-eq-in_range (negsuc m) (pos zero) ha hb a0 b0 nw = absurd (b0 (ground arith))
divides_back-eq-in_range (negsuc m) (pos (suc n)) ha hb a0 b0 nw = back_negsuc-pos m n ha hb
divides_back-eq-in_range (negsuc m) (negsuc n) ha hb a0 b0 nw =
    back_negsuc-negsuc m n ha hb (λ h. nw (ground arith))

pub divides_back_min : divides_back (negsuc (half64 - 1)) (negsuc 0) ≡ true
unfolding wrap tdiv ◌*ℤ◌
divides_back_min = ground arith
