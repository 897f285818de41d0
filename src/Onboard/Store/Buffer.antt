-- ===== src/Onboard/Store/Buffer.antt =====
-- The `bufio.Writer` that compact of clients/onboard-sync/adapters/jsonlstore/store.go writes through: which bytes
-- have reached the file, and which still stand in the buffer.
use maritime_test_lab.Prelude.{
  ℕ, zero, suc, ◌+◌, ◌-◌, List, [], ◌∷◌, ◌++◌, if◌then◌else◌, leb, length,
}

abbrev Bytes : Type 0
Bytes = List ℕ

unfoldable pub drop : ℕ → Bytes → Bytes
drop zero bytes = bytes
drop (suc n) [] = []
drop (suc n) (b ∷ bytes) = drop n bytes

unfoldable pub first : ℕ → Bytes → Bytes
first zero bytes = []
first (suc n) [] = []
first (suc n) (b ∷ bytes) = b ∷ first n bytes

-- bufio's defaultBufSize
abbrev pub buffer_size : ℕ
buffer_size = 4096

-- what is written and what is buffered
pub record Buffered : Type 0 where
  pub out : Bytes
  pub buffer : Bytes

-- what does not fit an empty buffer is written at once
unfoldable pub refill : Bytes → Bytes → Buffered
refill out rest =
    if leb (length rest) buffer_size
    then record { out = out; buffer = rest }
    else record { out = out ++ rest; buffer = [] }

-- `Writer.Write`: a full buffer is written, an empty one is passed by
unfoldable pub write : Bytes → Buffered → Buffered
unfolding refill drop first
write bytes w =
    if leb (length w.buffer + length bytes) buffer_size
    then record w { buffer = w.buffer ++ bytes }
    else elim w.buffer [
      | [] ↦ record w { out = w.out ++ bytes }
      | _ ↦
          let room = buffer_size - length w.buffer in
          refill (w.out ++ w.buffer ++ first room bytes) (drop room bytes)
    ]
