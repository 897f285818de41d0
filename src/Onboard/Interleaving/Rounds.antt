-- ===== src/Onboard/Interleaving/Rounds.antt =====
-- A round of `SyncOnce` among the turns of the other goroutine: that it ends, and what it does alone.
use maritime_test_lab.Prelude.{
  ℕ, suc, false, ◌+◌, ◌*◌, ◌≤◌, String, Option, none, some, List, [], ◌∷◌, ◌++◌, ◌≡◌, refl, arith,
  ap, Option-cases, inl, inr, length, ◌⊎◌,
}
use maritime_test_lab.Onboard.Operation.{Operation}
use maritime_test_lab.Onboard.Queue.{Queue}
use maritime_test_lab.Onboard.Store
use maritime_test_lab.Onboard.Store.{Codec, Disk, ack, pending, whole}
use maritime_test_lab.Onboard.Syncer.{Syncer, sync_all}
use maritime_test_lab.Onboard.Interleaving.{
  SyncAt, EditAt, Shared, Answer, Turn, resting, sending, acking, syncs, edits, take_turn, run,
  after_ack, sync_step, edit_step, ready, appending,
}

-- the turns that a round needs at most until it is over
abbrev pub turns_left : SyncAt → ℕ
turns_left resting = 0
turns_left (sending ops n) = 1 + 2 * length ops
turns_left (acking op ops n) = 2 + 2 * length ops

-- the turns of the goroutine that syncs
abbrev pub sync_turns : List Turn → ℕ
sync_turns [] = 0
sync_turns (syncs a ∷ turns) = suc (sync_turns turns)
sync_turns (edits op disk ∷ turns) = sync_turns turns

after_ack_left :
    (e : Option Store.Error) (ops : Queue) (n : ℕ)
    → turns_left (after_ack e ops n) ≤ 1 + 2 * length ops
after_ack_left none ops n = omega arith
after_ack_left (some e) ops n = omega arith

-- The end of a run that passes a state in which no round is in progress.
module _ (codec : Codec) where
  abbrev pub Ends : List Turn → Shared → Type 0
  Ends turns s =
      (before : List Turn) × (after : List Turn) × (turns ≡ before ++ after)
      × ((run codec before s).sync_at ≡ resting)

  edit_left :
      (at : EditAt) (op : Operation) (disk : Disk) (s : Shared)
      → (edit_step codec at op disk s).sync_at ≡ s.sync_at
  edit_left ready op disk s = refl
  edit_left (appending given best) op disk s = refl

  sync_left :
      (at : SyncAt) (a : Answer) (s : Shared)
      → at ≡ resting ⊎ (suc (turns_left (sync_step codec at a s).sync_at) ≤ turns_left at)
  sync_left resting a s = inl refl
  sync_left (sending [] n) a s = inr (omega arith)
  sync_left (sending (op ∷ ops) n) a s = elim (Option-cases a.send) [
    | inl e ↦ inr (rw e (omega arith))
    | inr (text, e) ↦ inr (rw e (omega arith))
  ]
  sync_left (acking op ops n) a s =
      inr (
        omega
          (arith, after_ack_left (ack codec a.disk op.client_request_id s.syncer.store).0 ops n))

  at_rest : (at : SyncAt) → turns_left at ≤ 0 → at ≡ resting
  at_rest resting n = refl
  at_rest (sending ops k) n = absurd (omega arith)
  at_rest (acking op ops k) n = absurd (omega arith)

  -- A round ends, whatever the other goroutine enqueues meanwhile and whatever the transport and the disk answer: of a snapshot with k operations that are left
  -- to send, 2 * k + 1 turns of the goroutine that syncs reach a state in which it has returned, with any number of turns of the other between them.
  pub round-Ends :
      (turns : List Turn) (s : Shared) → turns_left s.sync_at ≤ sync_turns turns → Ends turns s
  unfolding run take_turn
  round-Ends [] s n = ([], [], refl, at_rest s.sync_at n)
  round-Ends (syncs a ∷ turns) s n = elim (sync_left s.sync_at a s) [
    | inl e ↦ ([], syncs a ∷ turns, refl, e)
    | inr less ↦
        let (before, after, split, rest) =
          round-Ends turns (take_turn codec (syncs a) s) (omega (arith, less, n)) in
        (syncs a ∷ before, after, ap (λ l. syncs a ∷ l) split, rest)
  ]
  round-Ends (edits op disk ∷ turns) s n =
      let (before, after, split, rest) =
        round-Ends turns (take_turn codec (edits op disk) s)
          (rw (edit_left s.edit_at op disk s) n) in
      (edits op disk ∷ before, after, ap (λ l. edits op disk ∷ l) split, rest)

  module _ (send : Operation → Option String) (now : Operation → ℕ) (disk : Operation → Disk) where
    -- what the transport, the clock and the disk answer for an operation
    abbrev answer : Operation → Answer
    answer op = record { send = send op; now = now op; disk = disk op }

    -- a run of the goroutine that syncs alone, from a state to where a call has left the syncer
    record Alone (s : Shared) (after : Syncer) : Type 0 where
      turns : List Turn
      alone : sync_turns turns ≡ length turns
      returned : (run codec turns s).sync_at ≡ resting
      same : (run codec turns s).syncer ≡ after

    turn_before :
        (a : Answer) (s : Shared) (after : Syncer)
        → Alone (take_turn codec (syncs a) s) after
        → Alone s after
    unfolding run
    turn_before a s after r = record {
      turns = syncs a ∷ r.turns;
      alone = omega (arith, r.alone);
      returned = r.returned;
      same = r.same;
    }

    at_end : (s : Shared) → s.sync_at ≡ resting → Alone s s.syncer
    unfolding run
    at_end s e = record { turns = []; alone = refl; returned = e; same = refl }

    idle : Answer
    idle = record {
      send = none;
      now = 0;
      disk = record {
        open_fails = false;
        write = whole;
        sync_fails = false;
        close_fails = false;
        rename_fails = false;
      };
    }

    sync_all-Alone :
        (ops : Queue) (n : ℕ) (s : Shared)
        → Alone
            (record s { sync_at = sending ops n })
            (sync_all codec send now disk ops n s.syncer).1
    unfolding take_turn sync_all
    sync_all-Alone [] n s =
        turn_before idle (record s { sync_at = sending [] n }) s.syncer
          (at_end (record s { sync_at = resting }) refl)
    sync_all-Alone (op ∷ ops) n s = elim (Option-cases (send op)) [
      | inr (text, e) ↦
          turn_before (answer op) (record s { sync_at = sending (op ∷ ops) n }) _
            (rw (e, take_turn, sync_all)
              (sync_all-Alone ops n (record s {
                syncer = record s.syncer {
                  retry_count = suc s.syncer.retry_count;
                  last_attempt = now op;
                  last_error = text;
                };
              })))
      | inl e ↦
          turn_before (answer op) (record s { sync_at = sending (op ∷ ops) n }) _
            (rw (e, take_turn, sync_all)
              (turn_before (answer op)
                (record s {
                  syncer = record s.syncer { last_attempt = now op };
                  sync_at = acking op ops n;
                  acked = op ∷ s.acked;
                })
                _
                (elim (Option-cases (ack codec (disk op) op.client_request_id s.syncer.store).0) [
                  | inl done ↦
                      rw (done, take_turn)
                        (sync_all-Alone ops (suc n) (record s {
                          syncer = record s.syncer {
                            store = (ack codec (disk op) op.client_request_id s.syncer.store).1;
                            last_attempt = now op;
                          };
                          acked = op ∷ s.acked;
                        }))
                  | inr (problem, failed) ↦
                      rw (failed, take_turn)
                        (at_end
                          (record s {
                            syncer = record s.syncer {
                              store = (ack codec (disk op) op.client_request_id s.syncer.store).1;
                              last_attempt = now op;
                            };
                            sync_at = resting;
                            acked = op ∷ s.acked;
                          })
                          refl)
                ])))
    ]
