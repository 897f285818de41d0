-- ===== src/Tests/Interleaving.antt =====
-- Two goroutines over the queue of clients/onboard-sync.
use maritime_test_lab.Prelude.{none, List, [], ◌∷◌, ◌≡◌, refl, arith, All}
use maritime_test_lab.Onboard.Queue.{find, sort}
use maritime_test_lab.Onboard.Syncer.{Syncer, coalesce}
use maritime_test_lab.Onboard.Interleaving.{
  Shared, Answer, Turn, sending, syncs, edits, take_turn, run, started,
}
use maritime_test_lab.Onboard.Interleaving.Invariant.{Covered}
use maritime_test_lab.Onboard.Interleaving.Laws.{run-Covered}
use maritime_test_lab.Onboard.Interleaving.Races.{race, race-not-Covered}
use maritime_test_lab.Onboard.Interleaving.Rounds.{Ends, round-Ends}
use maritime_test_lab.Tests.Onboard.{codec, sound, created, updated, other, idle}

-- the server is reached, and the disk is sound
abbrev acknowledges : Answer
acknowledges = record { send = none; now = 9; disk = sound }

-- another voyage is enqueued while the pending one is being sent
abbrev turns : List Turn
turns =
    syncs acknowledges
    ∷ edits created sound
    ∷ syncs acknowledges
    ∷ edits created sound
    ∷ syncs acknowledges
    ∷ []

run-Covered_example :
    All
      (Covered
        (run codec turns (started idle)).syncer.store.ops
        (run codec turns (started idle)).acked)
      (run codec turns (started idle)).enqueued
unfolding take_turn find sort coalesce
run-Covered_example = run-Covered codec turns idle (refl, tt) (tt, (tt, (tt, (refl, (tt, tt)))))

abbrev pending_creation : Syncer
pending_creation = record idle { store = record { ops = created ∷ []; file = none; tmp = none } }

race-not-Covered_example :
    let t : Shared = run codec (race acknowledges updated sound) (started pending_creation) in
    (t.enqueued ≡ updated ∷ []) × ¬ Covered t.syncer.store.ops t.acked updated
unfolding find sort
race-not-Covered_example =
    race-not-Covered codec pending_creation acknowledges created updated [] sound (refl, tt) refl
      refl refl refl

abbrev on_the_way : Shared
on_the_way = record (started idle) { sync_at = sending (other ∷ []) 0 }

round-Ends_example :
    Ends codec
      (syncs acknowledges ∷ edits created sound ∷ syncs acknowledges ∷ syncs acknowledges ∷ [])
      on_the_way
round-Ends_example =
    round-Ends codec
      (syncs acknowledges ∷ edits created sound ∷ syncs acknowledges ∷ syncs acknowledges ∷ [])
      on_the_way (omega arith)
