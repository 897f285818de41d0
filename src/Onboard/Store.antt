-- ===== src/Onboard/Store.antt =====
-- clients/onboard-sync/adapters/jsonlstore/store.go: the queue in memory and its JSONL file. What the disk
-- answers is a parameter of each call; encoding/json's text of an operation is a codec.
pub mod Buffer
pub mod Replay
pub mod Durable
use maritime_test_lab.Prelude.{
  ℕ, suc, zero, String, Bool, true, false, Option, none, some, List, [], ◌∷◌, ◌++◌, Result, ok, err,
  if◌then◌else◌, ◌==◌, ltb, ◌>>=◌, length, ◌^◌,
}
use maritime_test_lab.Onboard.Operation.{Operation}
use maritime_test_lab.Onboard.Queue.{Queue, put, remove, sort}
use maritime_test_lab.Onboard.Store.Buffer.{Buffered, write}

pub data Error : Type 0 where
  open_error parse_error scan_error marshal_error write_error sync_error close_error rename_error :
      Error

abbrev pub Bytes : Type 0
Bytes = List ℕ

-- `json.Marshal` and `json.Unmarshal` of an operation
pub record Codec : Type 0 where
  pub marshal : Operation → Option Bytes
  pub unmarshal : Bytes → Option Operation

-- `ops`, and the files at the path and beside it; `none` is a file that does not exist
pub record Store : Type 0 where
  pub ops : Queue
  pub file : Option Bytes
  pub tmp : Option Bytes

abbrev pub newline : ℕ
newline = 10

abbrev pub carriage_return : ℕ
carriage_return = 13

-- bufio.MaxScanTokenSize
abbrev pub max_token : ℕ
max_token = 2 ^ 16

-- what a bufio.Scanner hands out: the bytes before each newline, and what follows the last if that is not empty
unfoldable pub split_lines : Bytes → Bytes → List Bytes
split_lines [] [] = []
split_lines (b ∷ line) [] = (b ∷ line) ∷ []
split_lines line (b ∷ bytes) =
    let closed = split_lines [] bytes in
    let longer = split_lines (line ++ b ∷ []) bytes in
    if b == newline then line ∷ closed else longer

-- `dropCR` of bufio.ScanLines
unfoldable pub drop_cr : Bytes → Bytes
drop_cr [] = []
drop_cr (b ∷ []) = if b == carriage_return then [] else b ∷ []
drop_cr (b ∷ c ∷ bytes) = b ∷ drop_cr (c ∷ bytes)

module _ (codec : Codec) where
  parse : Bytes → Queue → Result Error Queue
  parse [] ops = ok ops
  parse (b ∷ line) ops = elim (codec.unmarshal (b ∷ line)) [
    | none ↦ err parse_error
    | some op ↦ ok (put op ops)
  ]

  -- A line that does not fit the scanner's buffer ends the scan with an error.
  unfoldable pub parse_line : Bytes → Queue → Result Error Queue
  unfolding parse
  parse_line line ops =
      if ltb (length line) max_token then parse (drop_cr line) ops else err scan_error

  -- the loop of `load`: empty lines are skipped, and the last write of an id wins
  unfoldable pub replay : List Bytes → Queue → Result Error Queue
  unfolding parse_line
  replay [] ops = ok ops
  replay (line ∷ lines) ops = parse_line line ops >>= replay lines

  unfoldable pub load : Option Bytes → Result Error Queue
  load none = ok []
  load (some bytes) = replay (split_lines [] bytes) []

  -- `Open`, over a file whose bytes can be read; a file that exists and cannot be opened is `open_fails`
  unfoldable pub open_store : Bool → Option Bytes → Option Bytes → Result Error Store
  unfolding load
  open_store open_fails file tmp =
      if open_fails
      then err open_error
      else load file >>= λ ops. ok (record { ops = ops; file = file; tmp = tmp })

module _ (codec : Codec) where
  -- the lines of `compact`, and whether one of them could not be marshalled
  unfoldable pub lines_of : Queue → Bytes × Bool
  lines_of [] = ([], false)
  lines_of (op ∷ ops) = elim (codec.marshal op) [
    | none ↦ ([], true)
    | some line ↦ let (bytes, fails) = lines_of ops in (line ++ newline ∷ bytes, fails)
  ]

  -- the bytes that the buffer has handed to the file when the loop of `compact` ends
  unfoldable pub flushed : Queue → Buffered → Bytes
  unfolding write
  flushed [] w = w.out
  flushed (op ∷ ops) w = elim (codec.marshal op) [
    | none ↦ w.out
    | some line ↦ flushed ops (write (line ++ newline ∷ []) w)
  ]

-- How a write to a file ends: whole, or with an error after some of its bytes.
pub data Write : Type 0 where
  whole : Write
  short : ℕ → Write

-- what the disk answers to a call
pub record Disk : Type 0 where
  pub open_fails : Bool
  pub write : Write
  pub sync_fails : Bool
  pub close_fails : Bool
  pub rename_fails : Bool

abbrev pub take : ℕ → Bytes → Bytes
take zero bytes = []
take (suc n) [] = []
take (suc n) (b ∷ bytes) = b ∷ take n bytes

abbrev pub written : Write → Bytes → Bytes
written whole bytes = bytes
written (short n) bytes = take n bytes

abbrev pub bytes_of : Option Bytes → Bytes
bytes_of none = []
bytes_of (some bytes) = bytes

-- A write that fails before the operation that cannot be marshalled is met is the error.
abbrev pub cut_error : Write → Bytes → Error
cut_error whole bytes = marshal_error
cut_error (short n) bytes = if ltb n (length bytes) then write_error else marshal_error

-- the error of a file that was written, by the call that failed first
abbrev pub file_error : Disk → Option Error
file_error disk = elim disk.write [
  | short n ↦ some write_error
  | whole ↦
      if disk.sync_fails
      then some sync_error
      else if disk.close_fails
      then some close_error
      else none
]

module _ (codec : Codec) (disk : Disk) where
  -- The operation is in the map before anything is written, whatever fails afterwards.
  unfoldable pub append : Operation → Store → Option Error × Store
  append op s =
      if disk.open_fails
      then (some open_error, record s { ops = put op s.ops })
      else elim (codec.marshal op) [
        | none ↦
            (some marshal_error, record s { ops = put op s.ops; file = some (bytes_of s.file) })
        | some line ↦ (
          file_error disk,
          record s {
            ops = put op s.ops;
            file = some (bytes_of s.file ++ written disk.write (line ++ newline ∷ []));
          },
        )
      ]

  -- what the temporary file comes to
  unfoldable pub renamed : Bytes → Store → Option Error × Store
  renamed bytes s = elim (file_error disk) [
    | some e ↦ (some e, record s { tmp = some (written disk.write bytes) })
    | none ↦
        if disk.rename_fails
        then (some rename_error, record s { tmp = some bytes })
        else (none, record s { file = some bytes; tmp = none })
  ]

  unfoldable pub compact : Store → Option Error × Store
  unfolding lines_of flushed renamed
  compact s =
      let (bytes, fails) = lines_of codec (sort s.ops) in
      if disk.open_fails
      then (some open_error, s)
      else if fails
      then (let out = flushed codec (sort s.ops) (record { out = []; buffer = [] }) in
          (some (cut_error disk.write out), record s { tmp = some (written disk.write out) }))
      else renamed bytes s

  unfoldable pub ack : String → Store → Option Error × Store
  unfolding compact
  ack client_request_id s = compact (record s { ops = remove client_request_id s.ops })

abbrev pub pending : Store → Queue
pending s = sort s.ops
