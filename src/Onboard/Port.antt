-- ===== src/Onboard/Port.antt =====
-- clients/onboard-sync/domain/ports.go, and Enqueue and SyncOnce of domain/syncer.go over any store that has the port. The laws say what the
-- domain relies on; adapters/jsonlstore keeps them (Port.Jsonl).
pub mod Laws
pub mod Jsonl
use mathlib.Core.List.{Mem}
use maritime_test_lab.Prelude.{
  ℕ, suc, String, Option, none, some, List, [], ◌∷◌, Result, ok, err, ◌≡◌, if◌then◌else◌, str_eq,
}
use maritime_test_lab.Onboard.Operation.{Operation}
use maritime_test_lab.Onboard.Queue.{Queue, find, Distinct}
use maritime_test_lab.Onboard.Syncer.{coalesce}

-- `domain.Store`, over the state `S` of what implements it, with the errors `E`
pub record Port (E S : Type 0) : Type 0 where
  pub append : Operation → S → Option E × S
  pub pending : S → Result E Queue
  pub ack : String → S → Option E × S

-- What the domain relies on: in a valid state the queue reads as a map from ids to operations, an append of an operation that can be
-- written puts it in the place of its id, and an ack takes the operation of its id away.
pub record Lawful {E S : Type 0} (port : Port E S) : Type 1 where
  pub IsValid : S → Type 0
  pub IsWritable : Operation → Type 0
  pub holds : S → String → Option Operation
  pub reads :
      (s : S)
      → IsValid s
      → (ops : Queue) × (port.pending s ≡ ok ops)
        × Distinct ops
        × ((j : String) → find j ops ≡ holds s j)
  pub held : (s : S) (j : String) (op : Operation) → IsValid s → holds s j ≡ some op → IsWritable op
  pub appends :
      (op : Operation) (s : S)
      → IsValid s
      → IsWritable op
      → ((port.append op s).0 ≡ none)
        × IsValid (port.append op s).1
        × ((j : String)
            → holds (port.append op s).1 j
              ≡ (if str_eq op.client_request_id j then some op else holds s j))
  pub acks :
      (id : String) (s : S)
      → IsValid s
      → ((port.ack id s).0 ≡ none)
        × IsValid (port.ack id s).1
        × ((j : String) → holds (port.ack id s).1 j ≡ (if str_eq id j then none else holds s j))

module _ {E S : Type 0} (port : Port E S) where
  unfoldable pub enqueue : Operation → S → Option E × S
  enqueue op s = elim (port.pending s) [
    | err e ↦ (some e, s)
    | ok ops ↦ port.append (coalesce ops op) s
  ]

  -- calls of `Enqueue`, one after the other
  unfoldable pub enqueue_all : List Operation → S → S
  unfolding enqueue
  enqueue_all [] s = s
  enqueue_all (op ∷ ops) s = enqueue_all ops (enqueue op s).1

  module _ (send : Operation → Option String) where
    -- the loop of `SyncOnce`, with what was synced before
    unfoldable pub sync_all : Queue → ℕ → S → (ℕ × Option E) × S
    sync_all [] synced s = ((synced, none), s)
    sync_all (op ∷ ops) synced s = elim (send op) [
      | some text ↦ sync_all ops synced s
      | none ↦
          let (e, t) = port.ack op.client_request_id s in
          elim e [ some problem ↦ ((synced, some problem), t) | none ↦ sync_all ops (suc synced) t ]
    ]

    unfoldable pub sync_once : S → (ℕ × Option E) × S
    unfolding sync_all
    sync_once s = elim (port.pending s) [ err e ↦ ((0, some e), s) | ok ops ↦ sync_all ops 0 s ]
