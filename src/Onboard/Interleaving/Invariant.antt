-- ===== src/Onboard/Interleaving/Invariant.antt =====
-- What the two goroutines keep true, while nothing is enqueued under the id of an operation that is in flight.
use mathlib.Core.List.{Mem}
use maritime_test_lab.Prelude.{none, some, ◌≡◌, ◌⊎◌, All}
use maritime_test_lab.Prelude.Int.{◌≤ℤ◌}
use maritime_test_lab.Onboard.Operation.{Operation}
use maritime_test_lab.Onboard.Queue.{Queue, find, Distinct}
use maritime_test_lab.Onboard.Interleaving.{
  SyncAt, EditAt, Shared, Turn, resting, sending, acking, ready, appending, syncs, edits, in_flight,
}

-- an operation of the id at the version or a higher one
abbrev pub Newer : Operation → Operation → Type 0
Newer op o = (o.client_request_id ≡ op.client_request_id) × (op.version ≤ℤ o.version)

-- among the pending operations and those that the server acknowledged
abbrev pub Covered : Queue → Queue → Operation → Type 0
Covered ops acked op =
    ((p : Operation) × (find op.client_request_id ops ≡ some p) × (op.version ≤ℤ p.version))
    ⊎ ((a : Operation) × Mem a acked × Newer op a)

-- the operation that the store has under its id
abbrev pub Stands : Queue → Operation → Type 0
Stands ops o = find o.client_request_id ops ≡ some o

abbrev pub Edited : EditAt → Queue → Type 0
Edited ready ops = Unit
Edited (appending given best) ops =
    Newer given best
    × ((p : Operation) → find best.client_request_id ops ≡ some p → p.version ≤ℤ best.version)

abbrev pub Accepted : SyncAt → Queue → Type 0
Accepted resting acked = Unit
Accepted (sending ops n) acked = Unit
Accepted (acking op ops n) acked = Mem op acked

pub record Tidy (ops : Queue) (at : SyncAt) (edit : EditAt) (acked enqueued : Queue) : Type 0 where
  pub distinct : Distinct ops
  pub apart : Distinct (in_flight at)
  pub flying : All (Stands ops) (in_flight at)
  pub accepted : Accepted at acked
  pub edited : Edited edit ops
  pub covered : All (Covered ops acked) enqueued

abbrev pub IsTidy : Shared → Type 0
IsTidy s = Tidy s.syncer.store.ops s.sync_at s.edit_at s.acked s.enqueued

abbrev pub Spared : EditAt → SyncAt → Type 0
Spared ready at = Unit
Spared (appending given best) at = find best.client_request_id (in_flight at) ≡ none

-- what is appended in the turn, if anything, is not in flight
abbrev pub Spares : Turn → Shared → Type 0
Spares (syncs a) s = Unit
Spares (edits op disk) s = Spared s.edit_at s.sync_at
