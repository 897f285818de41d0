-- ===== src/Money.antt =====
-- internal/money/money.go: amounts in integer minor units with a currency.
pub mod Laws
use maritime_test_lab.Prelude.{
  ℕ, String, Bool, true, false, ◌&&◌, ◌||◌, if◌then◌else◌, str_eq, Result, ok, err,
}
use maritime_test_lab.Prelude.Int.{ℤ, pos, ltb_ℤ, eqb_ℤ, ◌+ℤ◌, ◌*ℤ◌, wrap, half64, tdiv}

-- the sentinel errors; the text around a wrapped sentinel is not modelled
pub data Error : Type 0 where
  overflow currency_mismatch : Error

pub record Money : Type 0 where
  pub minor : ℤ
  pub currency : String

abbrev pub usd : String
usd = "USD"

unfoldable pub from_usd : ℤ → Money
from_usd minor = record { minor = minor; currency = usd }

unfoldable pub add : Money → Money → Result Error Money
unfolding wrap ◌+ℤ◌
add m other =
    if str_eq m.currency other.currency
    then (let sum = wrap half64 (m.minor +ℤ other.minor) in
        if (ltb_ℤ (pos 0) other.minor && ltb_ℤ sum m.minor)
          || (ltb_ℤ other.minor (pos 0) && ltb_ℤ m.minor sum)
        then err overflow
        else ok (record { minor = sum; currency = m.currency }))
    else err currency_mismatch

unfoldable pub mul : Money → ℤ → Result Error Money
unfolding wrap ◌*ℤ◌ tdiv
mul m factor =
    if eqb_ℤ m.minor (pos 0) || eqb_ℤ factor (pos 0)
    then ok (record { minor = pos 0; currency = m.currency })
    else (let product = wrap half64 (m.minor *ℤ factor) in
        if eqb_ℤ (wrap half64 (tdiv product factor)) m.minor
        then ok (record { minor = product; currency = m.currency })
        else err overflow)
