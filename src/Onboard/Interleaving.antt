-- ===== src/Onboard/Interleaving.antt =====
-- clients/onboard-sync with two goroutines: one calls SyncOnce of domain/syncer.go again and again, one calls Enqueue. A turn is one
-- step of either between two calls of the store, each of which holds the mutex of adapters/jsonlstore/store.go.
pub mod Invariant
pub mod Moves
pub mod Laws
pub mod Races
pub mod Rounds
use maritime_test_lab.Prelude.{
  ℕ, suc, String, Option, none, some, List, [], ◌∷◌, ◌++◌, length, ◌+◌, ◌*◌,
}
use maritime_test_lab.Onboard.Operation.{Operation}
use maritime_test_lab.Onboard.Queue.{Queue}
use maritime_test_lab.Onboard.Store
use maritime_test_lab.Onboard.Store.{Store, Codec, Disk, append, ack, pending}
use maritime_test_lab.Onboard.Syncer.{Syncer, coalesce}

-- Where the goroutine in `SyncOnce` stands, with the operations of its snapshot that are left and the count of those that are synced.
pub data SyncAt : Type 0 where
  resting : SyncAt
  sending : Queue → ℕ → SyncAt
  acking : Operation → Queue → ℕ → SyncAt

-- Where the goroutine in `Enqueue` stands: before the call, or with the operation that it was called with and the coalesced one.
pub data EditAt : Type 0 where
  ready : EditAt
  appending : Operation → Operation → EditAt

-- What the two share. `acked` and `enqueued` are not in the program: what the server acknowledged, and what was handed to a
-- call of `Enqueue` that is over.
pub record Shared : Type 0 where
  pub syncer : Syncer
  pub sync_at : SyncAt
  pub edit_at : EditAt
  pub acked : Queue
  pub enqueued : Queue

-- what the transport, the clock and the disk answer in a turn
pub record Answer : Type 0 where
  pub send : Option String
  pub now : ℕ
  pub disk : Disk

pub data Turn : Type 0 where
  syncs : Answer → Turn
  edits : Operation → Disk → Turn

abbrev pub after_ack : Option Store.Error → Queue → ℕ → SyncAt
after_ack none ops n = sending ops (suc n)
after_ack (some e) ops n = resting

module _ (codec : Codec) where
  abbrev pub sync_step : SyncAt → Answer → Shared → Shared
  sync_step resting a s = record s { sync_at = sending (pending s.syncer.store) 0 }
  sync_step (sending [] n) a s = record s { sync_at = resting }
  sync_step (sending (op ∷ ops) n) a s = elim a.send [
    | some text ↦ record s {
      syncer = record s.syncer {
        retry_count = suc s.syncer.retry_count;
        last_attempt = a.now;
        last_error = text;
      };
      sync_at = sending ops n;
    }
    | none ↦ record s {
      syncer = record s.syncer { last_attempt = a.now };
      sync_at = acking op ops n;
      acked = op ∷ s.acked;
    }
  ]
  sync_step (acking op ops n) a s =
      let (e, store) = ack codec a.disk op.client_request_id s.syncer.store in
      record s { syncer = record s.syncer { store = store }; sync_at = after_ack e ops n }

  abbrev pub edit_step : EditAt → Operation → Disk → Shared → Shared
  edit_step ready op disk s = record s {
    edit_at = appending op (coalesce (pending s.syncer.store) op);
  }
  edit_step (appending given best) op disk s =
      let (e, store) = append codec disk best s.syncer.store in
      record s {
        syncer = record s.syncer { store = store };
        edit_at = ready;
        enqueued = given ∷ s.enqueued;
      }

  unfoldable pub take_turn : Turn → Shared → Shared
  take_turn (syncs a) s = sync_step s.sync_at a s
  take_turn (edits op disk) s = edit_step s.edit_at op disk s

  unfoldable pub run : List Turn → Shared → Shared
  unfolding take_turn
  run [] s = s
  run (turn ∷ turns) s = run turns (take_turn turn s)

-- the operations that the goroutine in `SyncOnce` has still to send or to ack
abbrev pub in_flight : SyncAt → Queue
in_flight resting = []
in_flight (sending ops n) = ops
in_flight (acking op ops n) = op ∷ ops

-- the two goroutines before their first turn
abbrev pub started : Syncer → Shared
started syncer = record {
  syncer = syncer;
  sync_at = resting;
  edit_at = ready;
  acked = [];
  enqueued = [];
}
