-- ===== src/Prelude/Lists.antt =====
-- Lists measured by native numbers.
use Prim.Native.Nat.{ℕ, suc, ◌+◌}
use mathlib.Core.Path.{◌≡◌}
use mathlib.Core.List.{List, [], ◌∷◌, ◌++◌}
use native.Mathlib.Omega.{arith}

module _ {ℓ} {A : Type ℓ} where
  abbrev pub length : List A → ℕ
  length [] = 0
  length (x ∷ xs) = suc (length xs)

  pub length-append : (xs ys : List A) → length (xs ++ ys) ≡ length xs + length ys
  length-append [] ys = omega arith
  length-append (x ∷ xs) ys = omega (arith, length-append xs ys)

-- a property of each entry
abbrev pub All {ℓ κ} : {A : Type ℓ} → (A → Type κ) → List A → Type κ
All p [] = Unit
All p (x ∷ xs) = p x × All p xs

module _ {ℓ κ} {A : Type ℓ} (p : A → Type κ) where
  pub All-append : (xs ys : List A) → All p xs → All p ys → All p (xs ++ ys)
  All-append [] ys h k = k
  All-append (x ∷ xs) ys h k = (h.0, All-append xs ys h.1 k)

  pub All-at : (before : List A) (x : A) (after : List A) → All p (before ++ x ∷ after) → p x
  All-at [] x after h = h.0
  All-at (y ∷ before) x after h = All-at before x after h.1

  pub All-map {μ} : (q : A → Type μ) (xs : List A) → ((x : A) → p x → q x) → All p xs → All q xs
  All-map q [] f h = tt
  All-map q (x ∷ xs) f h = (f x h.0, All-map q xs f h.1)
