-- ===== src/Prelude/Int.antt =====
-- Integers over the native numbers, and Go's int32 and int64: a machine integer is the integer that
-- it stands for, and every operation wraps around as two's complement does.
pub mod Division
use Prim.Native.Nat.{ℕ, zero, suc, ◌+◌, ◌-◌, ◌*◌, ◌/◌, ◌%◌, ◌^◌, ◌≤◌, ◌<◌}
use mathlib.Core.Path.{◌≡◌, refl, ap}
use mathlib.Core.Logic.{◌↔◌, ◌⊎◌, inl, inr}
use mathlib.Core.Bool.{Bool, true, false}
use native.Mathlib.Decide.{ℕ_discrete}
use native.Mathlib.Omega.{arith}
use native.Mathlib.Nat.{mul-le-mul_left}
use maritime_test_lab.Prelude.Tests.{ltb, leb, if◌then◌else◌}

-- `negsuc n` is -(n + 1).
pub data ℤ : Type 0 where
  pos : ℕ → ℤ
  negsuc : ℕ → ℤ

pub ℤ_discrete : Discrete ℤ
ℤ_discrete = hlevel ℕ_discrete

abbrev pub pos_part : ℤ → ℕ
pos_part (pos n) = n
pos_part (negsuc n) = 0

abbrev pub neg_part : ℤ → ℕ
neg_part (pos n) = 0
neg_part (negsuc n) = suc n

abbrev pub neg_ℤ : ℤ → ℤ
neg_ℤ (pos zero) = pos zero
neg_ℤ (pos (suc n)) = negsuc n
neg_ℤ (negsuc n) = pos (suc n)

-- a - b, as an integer
abbrev pub sub_ℕ : ℕ → ℕ → ℤ
sub_ℕ a b = if leb b a then pos (a - b) else negsuc (b - a - 1)

infixl 65 ◌+ℤ◌
infixl 70 ◌*ℤ◌
infix 50 ◌≤ℤ◌ ◌<ℤ◌
unfoldable pub ◌+ℤ◌ : ℤ → ℤ → ℤ
a +ℤ b = sub_ℕ (pos_part a + pos_part b) (neg_part a + neg_part b)

unfoldable pub ◌*ℤ◌ : ℤ → ℤ → ℤ
pos m *ℤ pos n = pos (m * n)
pos m *ℤ negsuc n = neg_ℤ (pos (m * suc n))
negsuc m *ℤ pos n = neg_ℤ (pos (suc m * n))
negsuc m *ℤ negsuc n = pos (suc m * suc n)

abbrev pub ◌≤ℤ◌ : ℤ → ℤ → Type 0
a ≤ℤ b = pos_part a + neg_part b ≤ pos_part b + neg_part a

abbrev pub ◌<ℤ◌ : ℤ → ℤ → Type 0
a <ℤ b = pos_part a + neg_part b < pos_part b + neg_part a

abbrev pub ltb_ℤ : ℤ → ℤ → Bool
ltb_ℤ a b = ltb (pos_part a + neg_part b) (pos_part b + neg_part a)

abbrev pub eqb_ℤ : ℤ → ℤ → Bool
eqb_ℤ a b = if ltb_ℤ a b then false else if ltb_ℤ b a then false else true

-- Half the number of values of the type: 2 ^ (w - 1) at width w.
abbrev pub half32 : ℕ
half32 = 2 ^ 31

abbrev pub half64 : ℕ
half64 = 2 ^ 63

abbrev pub in_range : ℕ → ℤ → Bool
in_range h (pos n) = ltb n h
in_range h (negsuc n) = ltb n h

abbrev pub InRange : ℕ → ℤ → Type 0
InRange h (pos n) = n < h
InRange h (negsuc n) = n < h

abbrev pub IsInt32 : ℤ → Type 0
IsInt32 = InRange half32

abbrev pub IsInt64 : ℤ → Type 0
IsInt64 = InRange half64

-- the bit pattern `w` read as two's complement
abbrev pub to_signed : ℕ → ℕ → ℤ
to_signed h w = if ltb w h then pos w else negsuc (h + h - w - 1)

-- the machine integer that an exact result is cut to
unfoldable pub wrap : ℕ → ℤ → ℤ
wrap h (pos n) = to_signed h (n % (h + h))
wrap h (negsuc n) = to_signed h (h + h - 1 - n % (h + h))

-- Go's quotient is cut towards zero. The sources test that the divisor is not 0.
unfoldable pub tdiv : ℤ → ℤ → ℤ
tdiv (pos m) (pos n) = pos (m / n)
tdiv (pos m) (negsuc n) = neg_ℤ (pos (m / suc n))
tdiv (negsuc m) (pos n) = neg_ℤ (pos (suc m / n))
tdiv (negsuc m) (negsuc n) = pos (suc m / suc n)

pub wrap-InRange : (z : ℤ) → IsInt64 (wrap half64 z)
unfolding wrap
wrap-InRange z = ground arith

pub wrap_id : (z : ℤ) → IsInt64 z → wrap half64 z ≡ z
unfolding wrap
wrap_id z r = ground arith

pub in_range_iff : (h : ℕ) (z : ℤ) → (in_range h z ≡ true) ↔ InRange h z
in_range_iff h z = ground arith

pub eqb_ℤ_iff : (a b : ℤ) → (eqb_ℤ a b ≡ true) ↔ (a ≡ b)
eqb_ℤ_iff a b = ground arith

-- Sums and orders by their two parts, which are numbers that `omega` reads.
pub +ℤ_parts :
    (a b : ℤ)
    → pos_part (a +ℤ b) + neg_part a + neg_part b ≡ neg_part (a +ℤ b) + pos_part a + pos_part b
unfolding ◌+ℤ◌
+ℤ_parts a b = ground arith

pub +ℤ-le_right : (a b c : ℤ) → a ≤ℤ b → a +ℤ c ≤ℤ b +ℤ c
+ℤ-le_right a b c h = omega (arith, +ℤ_parts a c, +ℤ_parts b c)

pub *ℤ-le_left : (a b c : ℤ) → pos 0 ≤ℤ a → pos 0 ≤ℤ b → b ≤ℤ c → a *ℤ b ≤ℤ a *ℤ c
unfolding ◌*ℤ◌
*ℤ-le_left (pos a) (pos b) (pos c) ha hb h = grind (arith, mul-le-mul_left)
*ℤ-le_left (pos a) (pos b) (negsuc c) ha hb h = absurd (omega arith)
*ℤ-le_left (pos a) (negsuc b) c ha hb h = absurd (omega arith)
*ℤ-le_left (negsuc a) b c ha hb h = absurd (omega arith)
