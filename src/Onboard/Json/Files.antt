-- ===== src/Onboard/Json/Files.antt =====
-- The queue's file, with the lines that encoding/json writes: which operations survive a reopen of the store, and which lock it.
use maritime_test_lab.Prelude.{
  ◌+◌, ◌≤◌, String, true, false, Option, none, some, [], ◌∷◌, ◌++◌, ok, err, ◌≡◌, ◌≢◌, refl, arith,
  ap, All, length, ltb, if◌then◌else◌, str_eq,
}
use maritime_test_lab.Onboard.Operation.{Operation}
use maritime_test_lab.Onboard.Queue.{Queue, find, put}
use maritime_test_lab.Onboard.Store.{
  Bytes, Store, Disk, newline, max_token, drop_cr, parse_line, append, open_store, replay,
  scan_error, pending,
}
use maritime_test_lab.Onboard.Store.Replay.{Prints, NoNewline, one_line}
use maritime_test_lab.Onboard.Store.Durable.{Durable, Sound, load-Closed}
use maritime_test_lab.Onboard.Syncer.{Syncer, enqueue}
use maritime_test_lab.Onboard.Syncer.Laws.{merged, enqueue-Durable}
use maritime_test_lab.Onboard.Json.{marshal, codec}
use maritime_test_lab.Onboard.Json.Laws.{Printable, marshal-Printable, marshal-length, characters}

Printable-NoNewline : (bytes : Bytes) → All Printable bytes → NoNewline bytes
Printable-NoNewline [] h = tt
Printable-NoNewline (b ∷ bytes) (h, k) = (λ e. omega arith, Printable-NoNewline bytes k)

Printable-drop_cr : (bytes : Bytes) → All Printable bytes → drop_cr bytes ≡ bytes
unfolding drop_cr
Printable-drop_cr [] h = refl
Printable-drop_cr (b ∷ []) h = ground (arith, h.0)
Printable-drop_cr (b ∷ c ∷ bytes) h = ap (λ r. b ∷ r) (Printable-drop_cr (c ∷ bytes) h.1)

-- `json.Unmarshal` reads back what `json.Marshal` wrote for the operation
abbrev pub ReadsBack : (Bytes → Option Operation) → Operation → Type 0
ReadsBack unmarshal op = unmarshal (marshal op) ≡ some op

-- the texts of the operation have at most 10,000 characters together
abbrev pub Small : Operation → Type 0
Small op = characters op ≤ 10000

module _ (unmarshal : Bytes → Option Operation) where
  parse_line-put :
      (line : Bytes) (op : Operation) (ops : Queue)
      → All Printable line
      → line ≢ []
      → length line + 1 ≤ max_token
      → unmarshal line ≡ some op
      → parse_line (codec unmarshal) line ops ≡ ok (put op ops)
  unfolding parse_line
  parse_line-put [] op ops p n short u = absurd (n refl)
  parse_line-put (b ∷ line) op ops p n short u =
      let fits : ltb (length (b ∷ line)) max_token ≡ true = ground arith in
      rw (fits, Printable-drop_cr (b ∷ line) p, u) refl

  pub Small-Prints :
      (op : Operation) → ReadsBack unmarshal op → Small op → Prints (codec unmarshal) op
  unfolding marshal
  Small-Prints op back small = record {
    line = marshal op;
    marshal = refl;
    no_newline = Printable-NoNewline (marshal op) (marshal-Printable op);
    parsed = λ ops.
        parse_line-put (marshal op) op ops (marshal-Printable op) (cc)
          (omega (arith, (marshal-length op).1, small)) back;
  }

  -- Enqueueing on a sound disk keeps the queue durable for operations of at most 10,000 characters: if what is enqueued, or what is pending under its id if that is newer,
  -- is such an operation and is read back by `json.Unmarshal`, then the call answers no error, the file replays to the queue afterwards, the pending operation of the id becomes the one with the higher version of the two,
  -- the one that was there on a tie, and no other operation changes.
  pub enqueue-Small-Durable :
      (disk : Disk) (op : Operation) (s : Syncer)
      → Sound disk
      → Durable (codec unmarshal) s.store
      → ReadsBack unmarshal (merged (find op.client_request_id s.store.ops) op)
      → Small (merged (find op.client_request_id s.store.ops) op)
      → let t : Syncer = (enqueue (codec unmarshal) disk op s).1 in
        ((enqueue (codec unmarshal) disk op s).0 ≡ none)
        × Durable (codec unmarshal) t.store
        × ((j : String)
            → find j (pending t.store) ≡ (
                if str_eq op.client_request_id j
                then some (merged (find op.client_request_id s.store.ops) op)
                else find j (pending s.store)))
  enqueue-Small-Durable disk op s sound d back small =
      enqueue-Durable (codec unmarshal) disk op s sound d
        (Small-Prints (merged (find op.client_request_id s.store.ops) op) back small)

  long_line :
      (line : Bytes) (ops : Queue)
      → max_token ≤ length line
      → parse_line (codec unmarshal) line ops ≡ err scan_error
  unfolding parse_line
  long_line line ops long =
      let over : ltb (length line) max_token ≡ false = ground arith in rw over refl

  -- An operation whose texts have 65,536 characters or more locks the queue: on a sound disk its append is answered without an error and written whole, and
  -- no store can be opened over the file any more, so that every operation that was pending is out of reach.
  pub append_long_locks :
      (disk : Disk) (op : Operation) (s : Store) (tmp : Option Bytes)
      → Sound disk
      → Durable (codec unmarshal) s
      → max_token ≤ characters op
      → ((append (codec unmarshal) disk op s).0 ≡ none)
        × (open_store (codec unmarshal) false (append (codec unmarshal) disk op s).1.file tmp
            ≡ err scan_error)
  unfolding append open_store replay
  append_long_locks disk op s tmp sound d long =
      let now =
        load-Closed (codec unmarshal) s.file (marshal op ++ newline ∷ []) d.replayed d.closed
          d.loads in
      let one =
        one_line [] (marshal op) (Printable-NoNewline (marshal op) (marshal-Printable op)) in
      rw (sound.open_fails, sound.write, sound.sync_fails, sound.close_fails)
        (
          refl,
          rw
              (
                now,
                one,
                long_line (marshal op) d.replayed (omega (arith, (marshal-length op).0, long)),
              )
              refl,
        )
