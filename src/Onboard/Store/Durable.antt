-- ===== src/Onboard/Store/Durable.antt =====
-- The queue survives a cold reopen, before and after each operation of the store.
use maritime_test_lab.Prelude.{
  ℕ, String, false, Option, none, some, [], ◌∷◌, ◌++◌, ok, err, if◌then◌else◌, ◌≡◌, ◌≢◌, arith,
  refl, inl, inr, ap, ◌∙◌, sym, str_eq, Bool-cases, ◌⊎◌,
}
use mathlib.Core.List.{append_assoc}
use maritime_test_lab.Onboard.Operation.{Operation}
use maritime_test_lab.Onboard.Queue.{
  Queue, find, put, remove, sort, insert, Distinct, find-put, find-sort, find-remove, put-Distinct,
  sort-Distinct, remove-Distinct, precedes,
}
use maritime_test_lab.Onboard.Store.{
  Bytes, Codec, Store, Disk, whole, newline, split_lines, replay, load, append, compact, lines_of,
  renamed, ack, bytes_of, open_store, parse_line, pending, file_error, Error, short, take,
  write_error,
}
use maritime_test_lab.Onboard.Store.Replay.{
  Prints, AllPrint, Closed, split_lines-Closed, replay-append, put_all, put_all-Distinct,
  find-put_all, replay-lines_of, one_line,
}

-- every call of the disk succeeds
pub record Sound (disk : Disk) : Type 0 where
  pub open_fails : disk.open_fails ≡ false
  pub write : disk.write ≡ whole
  pub sync_fails : disk.sync_fails ≡ false
  pub close_fails : disk.close_fails ≡ false
  pub rename_fails : disk.rename_fails ≡ false

module _ (codec : Codec) where
  -- what a cold reopen needs: the file replays to a queue that reads as the one in memory
  pub record Durable (s : Store) : Type 0 where
    pub distinct : Distinct s.ops
    pub prints : AllPrint codec s.ops
    pub closed : Closed (bytes_of s.file)
    pub replayed : Queue
    pub apart : Distinct replayed
    pub loads : load codec s.file ≡ ok replayed
    pub same : (j : String) → find j replayed ≡ find j s.ops

  put-AllPrint :
      (op : Operation) (ops : Queue)
      → Prints codec op
      → AllPrint codec ops
      → AllPrint codec (put op ops)
  unfolding put
  put-AllPrint op [] p h = (p, tt)
  put-AllPrint op (o ∷ ops) p (q, h) =
      elim (Bool-cases (str_eq o.client_request_id op.client_request_id)) [
        | inl e ↦ rw e (p, h)
        | inr e ↦ rw e (q, put-AllPrint op ops p h)
      ]

  remove-AllPrint :
      (id : String) (ops : Queue) → AllPrint codec ops → AllPrint codec (remove id ops)
  unfolding remove
  remove-AllPrint id [] h = tt
  remove-AllPrint id (o ∷ ops) (q, h) = elim (Bool-cases (str_eq o.client_request_id id)) [
    | inl e ↦ rw e h
    | inr e ↦ rw e (q, remove-AllPrint id ops h)
  ]

  insert-AllPrint :
      (op : Operation) (ops : Queue)
      → Prints codec op
      → AllPrint codec ops
      → AllPrint codec (insert op ops)
  unfolding insert
  insert-AllPrint op [] p h = (p, tt)
  insert-AllPrint op (o ∷ ops) p (q, h) = elim (Bool-cases (precedes o op)) [
    | inl e ↦ rw (e, insert) (q, insert-AllPrint op ops p h)
    | inr e ↦ rw (e, insert) (p, (q, h))
  ]

  sort-AllPrint : (ops : Queue) → AllPrint codec ops → AllPrint codec (sort ops)
  unfolding sort
  sort-AllPrint [] h = tt
  sort-AllPrint (op ∷ ops) (p, h) = insert-AllPrint op (sort ops) p (sort-AllPrint ops h)

  pub load-Closed :
      (file : Option Bytes) (more : Bytes) (q : Queue)
      → Closed (bytes_of file)
      → load codec file ≡ ok q
      → load codec (some (bytes_of file ++ more)) ≡ replay codec (split_lines [] more) q
  unfolding load split_lines replay
  load-Closed none more q c e = ground arith
  load-Closed (some bytes) more q c e =
      rw
        (
          split_lines-Closed bytes more c,
          replay-append codec (split_lines [] bytes) (split_lines [] more) [],
          e,
        )
        refl

  file_error-Sound : (disk : Disk) → Sound disk → file_error disk ≡ none
  file_error-Sound disk h = rw (h.write, h.sync_fails, h.close_fails) refl

  module _ (disk : Disk) (sound : Sound disk) where
    abbrev after_append : Operation → Bytes → Store → Store
    after_append op line s = record s {
      ops = put op s.ops;
      file = some (bytes_of s.file ++ (line ++ newline ∷ []));
    }

    append-Sound :
        (op : Operation) (s : Store) (line : Bytes)
        → codec.marshal op ≡ some line
        → append codec disk op s ≡ (none, after_append op line s)
    unfolding append
    append-Sound op s line m =
        rw (sound.open_fails, m, file_error-Sound disk sound, sound.write) refl

    -- An append that the disk carries out, of an operation whose line has no newline, fits the buffer of `load`'s scanner and is read back as the operation, answers no error, keeps the queue durable, and puts the operation in the place of its id only.
    pub append-Durable :
        (op : Operation) (s : Store)
        → Prints codec op
        → Durable s
        → ((append codec disk op s).0 ≡ none)
          × Durable (append codec disk op s).1
          × ((j : String)
              → find j (append codec disk op s).1.ops
                ≡ (if str_eq op.client_request_id j then some op else find j s.ops))
    unfolding replay
    append-Durable op s p d = rw (append-Sound op s p.line p.marshal) (
      refl,
      record {
        distinct = put-Distinct op s.ops d.distinct;
        prints = put-AllPrint op s.ops p d.prints;
        closed =
            inr (
              bytes_of s.file ++ p.line,
              sym (append_assoc (bytes_of s.file) p.line (newline ∷ [])),
            );
        replayed = put op d.replayed;
        apart = put-Distinct op d.replayed d.apart;
        loads =
            load-Closed s.file (p.line ++ newline ∷ []) d.replayed d.closed d.loads
            ∙ rw (one_line [] p.line p.no_newline, p.parsed d.replayed) refl;
        same = λ j.
            find-put j op d.replayed
            ∙ ap (λ o. if str_eq op.client_request_id j then some op else o) (d.same j)
            ∙ sym (find-put j op s.ops);
      },
      λ j. find-put j op s.ops,
    )

    abbrev after_ack : String → Store → Store
    after_ack id s = record {
      ops = remove id s.ops;
      file = some (lines_of codec (sort (remove id s.ops))).0;
      tmp = none;
    }

    renamed-Sound :
        (bytes : Bytes) (s : Store)
        → renamed codec disk bytes s ≡ (none, record s { file = some bytes; tmp = none })
    unfolding renamed
    renamed-Sound bytes s = rw (file_error-Sound disk sound, renamed, sound.rename_fails) refl

    ack-Sound :
        (id : String) (s : Store)
        → AllPrint codec s.ops
        → ack codec disk id s ≡ (none, after_ack id s)
    unfolding ack compact
    ack-Sound id s h =
        rw
          (
            (replay-lines_of codec (sort (remove id s.ops)) []
                (sort-AllPrint (remove id s.ops) (remove-AllPrint id s.ops h))).0,
            renamed-Sound (lines_of codec (sort (remove id s.ops))).0
                (record s { ops = remove id s.ops }),
            sound.open_fails,
          )
          refl

    -- An ack that the disk carries out keeps the queue durable, and removes the operation of its id only.
    pub ack-Durable :
        (id : String) (s : Store)
        → Durable s
        → ((ack codec disk id s).0 ≡ none)
          × Durable (ack codec disk id s).1
          × ((j : String)
              → find j (ack codec disk id s).1.ops ≡ (if str_eq id j then none else find j s.ops))
    unfolding load find
    ack-Durable id s d =
        let left = remove id s.ops in
        let apart = remove-Distinct id s.ops d.distinct in
        let (fine, replayed, closed) =
          replay-lines_of codec (sort left) []
            (sort-AllPrint left (remove-AllPrint id s.ops d.prints)) in
        rw (ack-Sound id s d.prints) (
          refl,
          record {
            distinct = apart;
            prints = remove-AllPrint id s.ops d.prints;
            closed = closed;
            replayed = put_all codec (sort left) [];
            apart = put_all-Distinct codec (sort left) [] tt;
            loads = replayed;
            same = λ j.
                find-put_all codec j (sort left) [] (sort-Distinct left apart)
                ∙ or_none (find j (sort left))
                ∙ find-sort left apart j;
          },
          λ j. find-remove id j s.ops d.distinct,
        )
      where
        or_none : (o : Option Operation) → elim o [ none ↦ none | some op ↦ some op ] ≡ o
        or_none none = refl
        or_none (some op) = refl

  -- A store that is opened over the file of a durable queue holds for each id the operation that was pending.
  pub reopen :
      (s : Store) (tmp : Option Bytes)
      → Durable s
      → (t : Store) × (open_store codec false s.file tmp ≡ ok t)
        × ((j : String) → find j (pending t) ≡ find j (pending s))
  unfolding open_store
  reopen s tmp d = (
    record { ops = d.replayed; file = s.file; tmp = tmp },
    rw d.loads refl,
    λ j. find-sort d.replayed d.apart j ∙ d.same j ∙ sym (find-sort s.ops d.distinct j),
  )

  -- If the write of an operation is cut so that the last line is no JSON of an operation, no store can be opened over the
  -- file any more, and every operation that was pending before is out of reach.
  pub torn_append :
      (disk : Disk) (op : Operation) (s : Store) (line torn : Bytes) (n : ℕ) (e : Error)
      (tmp : Option Bytes)
      → Durable s
      → disk.open_fails ≡ false
      → codec.marshal op ≡ some line
      → disk.write ≡ short n
      → split_lines [] (take n (line ++ newline ∷ [])) ≡ torn ∷ []
      → ((ops : Queue) → parse_line codec torn ops ≡ err e)
      → ((append codec disk op s).0 ≡ some write_error)
        × (open_store codec false (append codec disk op s).1.file tmp ≡ err e)
  unfolding append open_store replay
  torn_append disk op s line torn n e tmp d o m w cut bad =
      let now = load-Closed s.file (take n (line ++ newline ∷ [])) d.replayed d.closed d.loads in
      rw (m, w, o) (refl, rw (now, cut, bad d.replayed) refl)

  -- Whatever the disk does, an ack leaves the queue's file as it was, or replaces it by the lines of the operations that are left, and says which.
  pub ack_atomic :
      (disk : Disk) (id : String) (s : Store)
      → (((ack codec disk id s).0 ≢ none) × ((ack codec disk id s).1.file ≡ s.file))
        ⊎ (((ack codec disk id s).0 ≡ none)
            × ((ack codec disk id s).1.file ≡ some (lines_of codec (sort (remove id s.ops))).0))
  unfolding ack compact renamed
  ack_atomic disk id s = ground arith
