-- ===== src/Onboard/Syncer.antt =====
-- clients/onboard-sync/domain/syncer.go, over the store of store.go. The transport answers for an operation;
-- the clock and the disk answer per call.
pub mod Laws
use maritime_test_lab.Prelude.{
  ℕ, suc, String, Bool, true, false, Option, none, some, List, [], ◌∷◌, Result, ok, err,
  if◌then◌else◌, str_eq, length, ◌+◌,
}
use maritime_test_lab.Onboard.Operation.{Operation, higher_version_wins}
use maritime_test_lab.Onboard.Queue.{Queue}
use maritime_test_lab.Onboard.Retry.{RetryPolicy, backoff}
use maritime_test_lab.Onboard.Store
use maritime_test_lab.Onboard.Store.{Store, Codec, Disk, append, ack, pending}

-- `lastAttempt` is an instant; 0 is the zero time.
pub record Syncer : Type 0 where
  pub store : Store
  pub retry_count : ℕ
  pub last_attempt : ℕ
  pub last_error : String

pub record SyncStatus : Type 0 where
  pub queue_depth : ℕ
  pub retry_count : ℕ
  pub last_attempt : ℕ
  pub last_error : String

-- the loop of `Enqueue` over the pending operations, which stops at the first of the same id
unfoldable pub coalesce : Queue → Operation → Operation
coalesce [] op = op
coalesce (existing ∷ rest) op =
    if str_eq existing.client_request_id op.client_request_id
    then higher_version_wins existing op
    else coalesce rest op

module _ (codec : Codec) where
  unfoldable pub enqueue : Disk → Operation → Syncer → Option Store.Error × Syncer
  enqueue disk op s =
      let (e, store) = append codec disk (coalesce (pending s.store) op) s.store in
      (e, record s { store = store })

  -- `none` is a durable ack, and `some` the text of an error
  module _ (send : Operation → Option String) (now : Operation → ℕ) (disk : Operation → Disk) where
    abbrev attempted : Operation → Syncer → Syncer
    attempted op s = record s { last_attempt = now op }

    abbrev failed : Operation → String → Syncer → Syncer
    failed op text s = record s {
      retry_count = suc s.retry_count;
      last_attempt = now op;
      last_error = text;
    }

    -- the loop of `SyncOnce`, with what was synced before
    unfoldable pub sync_all : Queue → ℕ → Syncer → (ℕ × Option Store.Error) × Syncer
    sync_all [] synced s = ((synced, none), s)
    sync_all (op ∷ ops) synced s = elim (send op) [
      | some text ↦ sync_all ops synced (failed op text s)
      | none ↦
          let (e, store) = ack codec (disk op) op.client_request_id s.store in
          elim e [
            | some problem ↦ ((synced, some problem), record (attempted op s) { store = store })
            | none ↦ sync_all ops (suc synced) (record (attempted op s) { store = store })
          ]
    ]

    unfoldable pub sync_once : Syncer → (ℕ × Option Store.Error) × Syncer
    sync_once s = sync_all (pending s.store) 0 s

unfoldable pub retry_backoff : RetryPolicy → Syncer → ℕ
retry_backoff retry s = backoff retry s.retry_count

unfoldable pub sync_status : Syncer → SyncStatus
sync_status s = record {
  queue_depth = length (pending s.store);
  retry_count = s.retry_count;
  last_attempt = s.last_attempt;
  last_error = s.last_error;
}
