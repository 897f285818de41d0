-- ===== src/System/Stale.antt =====
-- An estimate belongs to version 1: what becomes of it when the voyage is updated.
use mathlib.Core.Option
use maritime_test_lab.Prelude.{String, Option, some, List, ◌≡◌}
use maritime_test_lab.Prelude.Int.{ℤ, pos, ◌≤ℤ◌}
use maritime_test_lab.Money.{Money}
use maritime_test_lab.Serde.{Serde}
use maritime_test_lab.Topic
use maritime_test_lab.Voyage.{Voyage}
use maritime_test_lab.Repository
use maritime_test_lab.Repository.{Row, find}
use maritime_test_lab.VoyageService.Consumer as Applying

-- the row of the key is past version 1, with such an estimate
pub record Updated (id : String) (estimate : Option ℤ) (rows : List Row) : Type 0 where
  pub row : Row
  pub at : find id rows ≡ some row
  pub past : pos 2 ≤ℤ row.version
  pub estimated : row.estimate_minor ≡ estimate
