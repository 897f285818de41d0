-- ===== src/Kafka.antt =====
-- What the sources use of the Kafka client (franz-go). The client is not part of
-- the repository: what a produce answers and what a commit does are parameters.
pub mod Log
use mathlib.Core.List.{Mem}
use maritime_test_lab.Prelude.{ℕ, ◌≤◌, ◌<◌, String, List, [], ◌∷◌, ◌++◌, ◌≡◌}

-- a record of a topic's partition
pub record Record : Type 0 where
  pub partition : ℕ
  pub offset : ℕ
  pub value : List ℕ

-- a record that was sent
pub record Produced : Type 0 where
  pub topic : String
  pub value : List ℕ

-- A broker acknowledges a record, refuses it, or keeps it and its answer is lost.
pub data Ack : Type 0 where
  acked refused answer_lost : Ack

-- what the broker holds after a produce, oldest first
abbrev pub append_log : Ack → Produced → List Produced → List Produced
append_log acked p log = log ++ p ∷ []
append_log refused p log = log
append_log answer_lost p log = log ++ p ∷ []

-- the committed offset of each partition: the first that is read again after a restart
abbrev pub Offsets : Type 0
Offsets = ℕ → ℕ

-- `CommitRecords` moves each partition past the highest offset among its records, and leaves the
-- partitions alone of which it is given no record.
pub record Commits (commit : List Record → Offsets → Offsets) : Type 0 where
  pub past :
      (rs : List Record) (offsets : Offsets) (r : Record)
      → Mem r rs
      → r.offset < commit rs offsets r.partition
  pub no_further :
      (rs : List Record) (offsets : Offsets) (p bound : ℕ)
      → ((r : Record) → Mem r rs → r.partition ≡ p → r.offset < bound)
      → offsets p ≤ bound
      → commit rs offsets p ≤ bound
