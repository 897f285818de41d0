-- ===== src/Onboard/Interleaving/Races.antt =====
-- What happens when an operation is enqueued under the id of one that is in flight.
use mathlib.Core.List.{eq-or-mem_of_mem-cons, not-mem-nil}
use mathlib.Core.Logic.Or
use maritime_test_lab.Prelude.{
  true, none, List, [], ◌∷◌, ◌≡◌, refl, arith, ap, ◌∙◌, inl, inr, eq_refl,
}
use maritime_test_lab.Prelude.Int.{ltb_ℤ}
use maritime_test_lab.Onboard.Operation.{Operation}
use maritime_test_lab.Onboard.Queue.{
  Queue, find, remove, put, Distinct, find-remove, put-Distinct, at_head,
}
use maritime_test_lab.Onboard.Store.{Codec, Disk, append, pending}
use maritime_test_lab.Onboard.Syncer.{Syncer, coalesce}
use maritime_test_lab.Onboard.Syncer.Laws.{merged, coalesce-find}
use maritime_test_lab.Onboard.Interleaving.{
  Shared, Answer, Turn, syncs, edits, take_turn, run, started,
}
use maritime_test_lab.Onboard.Interleaving.Invariant.{Covered}
use maritime_test_lab.Onboard.Interleaving.Moves.{ack-ops, append-ops}

-- the turns of the race: the snapshot, the send, the two turns of `Enqueue`, and the ack
abbrev pub race : Answer → Operation → Disk → List Turn
race a newer disk = syncs a ∷ syncs a ∷ edits newer disk ∷ edits newer disk ∷ syncs a ∷ []

module _ (codec : Codec) where
  not-Covered :
      (ops : Queue) (older newer : Operation)
      → find newer.client_request_id ops ≡ none
      → ltb_ℤ older.version newer.version ≡ true
      → ¬ Covered ops (older ∷ []) newer
  not-Covered ops older newer f v (inl (p, g, w)) = cc
  not-Covered ops older newer f v (inr (a, m, (k, w))) =
      Or.elim (λ x y. absurd x) (eq-or-mem_of_mem-cons m) (λ e. ground arith)
        (λ k. absurd (not-mem-nil k))

  -- The store that a race leaves.
  raced :
      (syncer : Syncer) (a : Answer) (older newer : Operation) (rest : Queue) (disk : Disk)
      → pending syncer.store ≡ older ∷ rest
      → a.send ≡ none
      → coalesce (pending syncer.store) newer ≡ newer
      → let t : Shared = run codec (race a newer disk) (started syncer) in
        (t.enqueued ≡ newer ∷ [])
        × (t.acked ≡ older ∷ [])
        × (t.syncer.store.ops ≡ remove older.client_request_id (put newer syncer.store.ops))
  unfolding run take_turn
  raced syncer a older newer rest disk p accepted best =
      rw (p, accepted)
        (
          refl,
          refl,
          ack-ops codec a.disk older.client_request_id
                (append codec disk (coalesce (pending syncer.store) newer) syncer.store).1
              ∙ ap (remove older.client_request_id) (
                  append-ops codec disk (coalesce (pending syncer.store) newer) syncer.store
                  ∙ ap (λ o. put o syncer.store.ops) best),
        )

  -- Operations that are enqueued while an older one of their id is being sent are lost: if a round takes its snapshot and the server acknowledges the first operation of it, and then a
  -- newer one of the same id is enqueued before the ack, the ack removes the newer one, which is then neither pending nor was it, or one at its version, acknowledged by the server.
  pub race-not-Covered :
      (syncer : Syncer) (a : Answer) (older newer : Operation) (rest : Queue) (disk : Disk)
      → Distinct syncer.store.ops
      → pending syncer.store ≡ older ∷ rest
      → newer.client_request_id ≡ older.client_request_id
      → ltb_ℤ older.version newer.version ≡ true
      → a.send ≡ none
      → let t : Shared = run codec (race a newer disk) (started syncer) in
        (t.enqueued ≡ newer ∷ []) × ¬ Covered t.syncer.store.ops t.acked newer
  race-not-Covered syncer a older newer rest disk d p same v accepted =
      let (enqueued, acked, left) = raced syncer a older newer rest disk p accepted best in
      (
        enqueued,
        rw (acked, left)
            (not-Covered (remove older.client_request_id (put newer syncer.store.ops)) older newer
              (find-remove older.client_request_id newer.client_request_id
                  (put newer syncer.store.ops) (put-Distinct newer syncer.store.ops d)
                ∙ rw same (ground (arith, eq_refl older.client_request_id)))
              v),
      )
    where
      best : coalesce (pending syncer.store) newer ≡ newer
      best =
          coalesce-find (pending syncer.store) newer
          ∙ ap (λ o. merged o newer)
              (ap (find newer.client_request_id) p
                ∙ ap (λ id. find id (older ∷ rest)) same
                ∙ at_head older rest)
          ∙ ground arith
