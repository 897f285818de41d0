-- ===== src/Onboard/Retry.antt =====
-- clients/onboard-sync/domain/retry.go. A duration is a number of nanoseconds. The product of a base and a
-- power of two is exact in float64 up to the cap of every policy that the client builds (30 seconds, below 2 ^ 53),
-- and what lies above the cap is cut to it, so the float64 arithmetic is that of the numbers. The random draw is a parameter.
use maritime_test_lab.Prelude.{
  ℕ, ◌+◌, ◌-◌, ◌*◌, ◌^◌, ◌≤◌, ◌<◌, ltb, leb, ◌==◌, if◌then◌else◌, arith,
}

pub record RetryPolicy : Type 0 where
  pub base : ℕ
  pub cap : ℕ
  -- `rng.Int63n`
  pub int63n : ℕ → ℕ

abbrev pub min : ℕ → ℕ → ℕ
min a b = if leb a b then a else b

-- `if attempt < 1`
abbrev pub at_least_1 : ℕ → ℕ
at_least_1 attempt = if ltb attempt 1 then 1 else attempt

unfoldable pub ceiling : RetryPolicy → ℕ → ℕ
ceiling p attempt = min (p.base * 2 ^ (at_least_1 attempt - 1)) p.cap

unfoldable pub backoff : RetryPolicy → ℕ → ℕ
unfolding ceiling
backoff p attempt = if ceiling p attempt == 0 then 0 else p.int63n (ceiling p attempt + 1)

-- `Int63n(n)` lies in [0, n).
abbrev pub Draws : RetryPolicy → Type 0
Draws p = (n : ℕ) → 0 < n → p.int63n n < n

-- The wait before an attempt is at most the base doubled once for each attempt before it, and at most the cap.
pub backoff-le :
    (p : RetryPolicy) (attempt : ℕ)
    → Draws p
    → (backoff p attempt ≤ p.base * 2 ^ (attempt - 1)) × (backoff p attempt ≤ p.cap)
unfolding backoff ceiling
backoff-le p attempt law = ground (arith, law (ceiling p attempt + 1))
