-- ===== src/Onboard/Port/Jsonl.antt =====
-- adapters/jsonlstore/store.go as the store of the domain: it keeps the laws of the port on a sound disk, for operations that are printed on one line.
use mathlib.Core.List.{Mem}
use maritime_test_lab.Prelude.{
  ℕ, suc, String, false, Option, some, List, [], ◌∷◌, ok, ◌≡◌, refl, sym, ◌∙◌, Option-cases, inl,
  inr, ◌⊎◌, All, All-map,
}
use maritime_test_lab.Prelude.Int.{◌≤ℤ◌}
use maritime_test_lab.Onboard.Operation.{Operation}
use maritime_test_lab.Onboard.Queue.{Queue, find, find-sort, sort, sort-Distinct}
use maritime_test_lab.Onboard.Store
use maritime_test_lab.Onboard.Store.{Bytes, Store, Codec, Disk, append, ack, pending, open_store}
use maritime_test_lab.Onboard.Store.Replay.{Prints}
use maritime_test_lab.Onboard.Store.Durable.{Durable, Sound, append-Durable, ack-Durable, reopen}
use maritime_test_lab.Onboard.Client.Laws.{found-Prints}
use maritime_test_lab.Onboard.Syncer
use maritime_test_lab.Onboard.Syncer.{Syncer}
use maritime_test_lab.Onboard.Json.{codec}
use maritime_test_lab.Onboard.Json.Files.{ReadsBack, Small, Small-Prints}
use maritime_test_lab.Onboard.Port.{Port, Lawful, enqueue, enqueue_all, sync_all, sync_once}
use maritime_test_lab.Onboard.Port.Laws.{Kept, enqueue_all-Kept}

module _ (codec : Codec) (disk : Disk) where
  abbrev pub jsonl : Port Store.Error Store
  jsonl = record { append = append codec disk; pending = λ s. ok (pending s); ack = ack codec disk }

  -- `Enqueue` over the port is the modelled one.
  pub enqueue-jsonl :
      (op : Operation) (s : Syncer)
      → ((Syncer.enqueue codec disk op s).0 ≡ (enqueue jsonl op s.store).0)
        × ((Syncer.enqueue codec disk op s).1.store ≡ (enqueue jsonl op s.store).1)
  unfolding Syncer.enqueue enqueue
  enqueue-jsonl op s = (refl, refl)

  module _ (send : Operation → Option String) (now : Operation → ℕ) where
    sync_all-jsonl :
        (ops : Queue) (n : ℕ) (s : Syncer)
        → ((Syncer.sync_all codec send now (λ op. disk) ops n s).0
            ≡ (sync_all jsonl send ops n s.store).0)
          × ((Syncer.sync_all codec send now (λ op. disk) ops n s).1.store
              ≡ (sync_all jsonl send ops n s.store).1)
    unfolding Syncer.sync_all sync_all
    sync_all-jsonl [] n s = (refl, refl)
    sync_all-jsonl (op ∷ ops) n s = elim (Option-cases (send op)) [
      | inr (text, e) ↦ rw (e, Syncer.sync_all, sync_all) (sync_all-jsonl ops n _)
      | inl e ↦ elim (Option-cases (ack codec disk op.client_request_id s.store).0) [
        | inl done ↦ rw (e, Syncer.sync_all, sync_all, done) (sync_all-jsonl ops (suc n) _)
        | inr (problem, failed) ↦ rw (e, Syncer.sync_all, sync_all, failed) (refl, refl)
      ]
    ]

    -- `SyncOnce` over the port is the modelled one.
    pub sync_once-jsonl :
        (s : Syncer)
        → ((Syncer.sync_once codec send now (λ op. disk) s).0 ≡ (sync_once jsonl send s.store).0)
          × ((Syncer.sync_once codec send now (λ op. disk) s).1.store
              ≡ (sync_once jsonl send s.store).1)
    unfolding Syncer.sync_once sync_once
    sync_once-jsonl s = sync_all-jsonl (pending s.store) 0 s

  abbrev pub jsonl-Lawful : Sound disk → Lawful jsonl
  jsonl-Lawful sound = record {
    IsValid = Durable codec;
    IsWritable = Prints codec;
    holds = λ s j. find j s.ops;
    reads = λ s d. (sort s.ops, refl, sort-Distinct s.ops d.distinct, find-sort s.ops d.distinct);
    held = λ s j op d f. found-Prints codec j op s.ops d.prints f;
    appends = λ op s d p. append-Durable codec disk sound op s p d;
    acks = λ id s d. ack-Durable codec disk sound id s d;
  }

-- The queue survives a crash with everything that was enqueued: after any calls of Enqueue, on a sound disk, of operations with at most 10,000 characters that are read back by `json.Unmarshal`,
-- a store can be opened over the file, which holds each of the operations under its id at its version or a higher one, and what it holds was pending before or is one of the operations.
pub enqueue_all-reopen :
    (unmarshal : Bytes → Option Operation) (disk : Disk) (ops : List Operation) (s : Store)
    (tmp : Option Bytes)
    → Sound disk
    → Durable (codec unmarshal) s
    → All (λ op. ReadsBack unmarshal op × Small op) ops
    → (t : Store) × (open_store
          (codec unmarshal)
          false
          (enqueue_all (jsonl (codec unmarshal) disk) ops s).file
          tmp
        ≡ ok t)
      × All
          (λ op.
            (p : Operation) × (find op.client_request_id (pending t) ≡ some p)
            × (op.version ≤ℤ p.version))
          ops
      × ((j : String) (p : Operation)
          → find j (pending t) ≡ some p
          → (find j (pending s) ≡ some p) ⊎ Mem p ops)
enqueue_all-reopen unmarshal disk ops s tmp sound d small =
    let port = jsonl (codec unmarshal) disk in
    let laws : Lawful port = jsonl-Lawful (codec unmarshal) disk sound in
    let (durable, kept, source) = enqueue_all-Kept port laws ops s d (
      All-map (λ op. ReadsBack unmarshal op × Small op) (Prints (codec unmarshal)) ops
        (λ op h. Small-Prints unmarshal op h.0 h.1) small) in
    let (t, opened, same) = reopen (codec unmarshal) (enqueue_all port ops s) tmp durable in
    let reads : (j : String) → find j (pending t) ≡ find j (enqueue_all port ops s).ops =
      λ j. same j ∙ find-sort (enqueue_all port ops s).ops durable.distinct j in
    (
      t,
      opened,
      All-map (Kept port laws (enqueue_all port ops s)) _ ops
          (λ op h. (h.0, reads op.client_request_id ∙ h.1, h.2)) kept,
      λ j p f. elim (source j p (sym (reads j) ∙ f)) [
        | inl g ↦ inl (find-sort s.ops d.distinct j ∙ g)
        | inr m ↦ inr m
      ],
    )
