-- ===== src/Onboard/Interleaving/Laws.antt =====
-- What the two goroutines guarantee.
use maritime_test_lab.Prelude.{suc, List, [], ◌∷◌, Option-cases, inl, inr, All}
use maritime_test_lab.Onboard.Operation.{Operation}
use maritime_test_lab.Onboard.Queue.{remove, Distinct}
use maritime_test_lab.Onboard.Store.{Codec, Disk, ack}
use maritime_test_lab.Onboard.Syncer.{Syncer}
use maritime_test_lab.Onboard.Interleaving.{
  SyncAt, EditAt, Shared, Answer, Turn, resting, sending, acking, ready, appending, syncs, edits,
  take_turn, run, sync_step, edit_step, started,
}
use maritime_test_lab.Onboard.Interleaving.Invariant.{Covered, Tidy, IsTidy, Spares, Spared}
use maritime_test_lab.Onboard.Interleaving.Moves.{
  ack-ops, append-ops, snapshot-Tidy, removed-Tidy, looked-Tidy, appended-Tidy, accepted-Tidy,
  refused-Tidy, after_ack-Tidy, returned-Tidy,
}

module _ (codec : Codec) where
  sync_step-Tidy :
      (at : SyncAt) (a : Answer) (s : Shared)
      → Tidy s.syncer.store.ops at s.edit_at s.acked s.enqueued
      → IsTidy (sync_step codec at a s)
  sync_step-Tidy resting a s t = snapshot-Tidy s.syncer.store.ops s.edit_at s.acked s.enqueued t
  sync_step-Tidy (sending [] n) a s t =
      returned-Tidy s.syncer.store.ops s.edit_at s.acked s.enqueued [] n t
  sync_step-Tidy (sending (op ∷ ops) n) a s t = elim (Option-cases a.send) [
    | inl e ↦ rw e (accepted-Tidy s.syncer.store.ops s.edit_at s.acked s.enqueued op ops n t)
    | inr (text, e) ↦ rw e (refused-Tidy s.syncer.store.ops s.edit_at s.acked s.enqueued op ops n t)
  ]
  sync_step-Tidy (acking op ops n) a s t =
      rw (ack-ops codec a.disk op.client_request_id s.syncer.store) (
        after_ack-Tidy (remove op.client_request_id s.syncer.store.ops) s.edit_at s.acked s.enqueued
          (ack codec a.disk op.client_request_id s.syncer.store).0 ops n
          (removed-Tidy s.syncer.store.ops op ops n (suc n) s.edit_at s.acked s.enqueued t))

  edit_step-Tidy :
      (at : EditAt) (op : Operation) (disk : Disk) (s : Shared)
      → Tidy s.syncer.store.ops s.sync_at at s.acked s.enqueued
      → Spared at s.sync_at
      → IsTidy (edit_step codec at op disk s)
  edit_step-Tidy ready op disk s t apart =
      looked-Tidy s.syncer.store.ops s.sync_at op s.acked s.enqueued t
  edit_step-Tidy (appending given best) op disk s t apart =
      rw (append-ops codec disk best s.syncer.store)
        (appended-Tidy s.syncer.store.ops s.sync_at given best s.acked s.enqueued t apart)

  -- no turn of a run appends what is in flight
  abbrev pub AllSpare : List Turn → Shared → Type 0
  AllSpare [] s = Unit
  AllSpare (turn ∷ turns) s = Spares turn s × AllSpare turns (take_turn codec turn s)

  take_turn-Tidy :
      (turn : Turn) (s : Shared) → Spares turn s → IsTidy s → IsTidy (take_turn codec turn s)
  unfolding take_turn
  take_turn-Tidy (syncs a) s spares t = sync_step-Tidy s.sync_at a s t
  take_turn-Tidy (edits op disk) s spares t = edit_step-Tidy s.edit_at op disk s t spares

  run-Tidy :
      (turns : List Turn) (s : Shared) → AllSpare turns s → IsTidy s → IsTidy (run codec turns s)
  unfolding run
  run-Tidy [] s spare t = t
  run-Tidy (turn ∷ turns) s (first, rest) t =
      run-Tidy turns (take_turn codec turn s) rest (take_turn-Tidy turn s first t)

  -- Nothing is lost between the goroutines that spare what is in flight: from a queue with each id once, however their turns follow each other and whatever the
  -- transport and the disk answer, if no operation is appended under an id that the round in progress has still to send or to ack, then for every operation that was enqueued, one of its id at its version or a higher one is
  -- pending, or was acknowledged by the server.
  pub run-Covered :
      (turns : List Turn) (syncer : Syncer)
      → Distinct syncer.store.ops
      → AllSpare turns (started syncer)
      → let t : Shared = run codec turns (started syncer) in
        All (Covered t.syncer.store.ops t.acked) t.enqueued
  run-Covered turns syncer d spare = (run-Tidy turns (started syncer) spare begun).covered
    where
      begun : IsTidy (started syncer)
      begun = record {
        distinct = d;
        apart = tt;
        flying = tt;
        accepted = tt;
        edited = tt;
        covered = tt;
      }
