-- ===== src/Consumer.antt =====
-- The loop that both consumers run (`Run` of services/estimator/adapters/kafka/consumer.go and of
-- services/voyage/adapters/kafka/estimate_consumer.go), over what `handle` does with one record.
pub mod Redelivery
use maritime_test_lab.Prelude.{ℕ, Bool, true, false, List, [], ◌∷◌, if◌then◌else◌}
use maritime_test_lab.Kafka.{Record, Offsets}

-- `if len(committable) > 0`; a commit that fails is only logged
unfoldable pub committed :
    (List Record → Offsets → Offsets) → Bool → Offsets → List Record → Offsets
committed commit commit_fails offsets [] = offsets
committed commit commit_fails offsets (r ∷ rs) =
    if commit_fails then offsets else commit (r ∷ rs) offsets

module _ {S : Type 0} (handle : Record → S → Bool × S) where
  -- `EachRecord`: the committable records, in the order of the batch, and the state behind it
  unfoldable pub handle_all : List Record → S → List Record × S
  handle_all [] s = ([], s)
  handle_all (r ∷ rs) s =
      let (done, s') = handle r s in
      let (committable, s'') = handle_all rs s' in
      (if done then r ∷ committable else committable, s'')

  -- one round of the loop
  unfoldable pub poll :
      (List Record → Offsets → Offsets) → Bool → List Record → S → Offsets → S × Offsets
  poll commit commit_fails batch s offsets =
      let (committable, s') = handle_all batch s in
      (s', committed commit commit_fails offsets committable)
