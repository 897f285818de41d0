-- ===== src/Onboard/Store/Replay.antt =====
-- A cold reopen: the file replays to the queue in memory.
use maritime_test_lab.Prelude.{
  All, String, false, none, some, List, [], ◌∷◌, ◌++◌, ok, ◌>>=◌, ◌≡◌, ◌≢◌, arith, refl, inl, inr,
  Result-cases, ◌⊎◌, eq_iff,
}
use mathlib.Core.List.{append_assoc, append-nil}
use maritime_test_lab.Onboard.Operation.{Operation}
use maritime_test_lab.Onboard.Queue.{Queue, find, put, Distinct, find-put, put-Distinct}
use maritime_test_lab.Onboard.Store.{
  Bytes, Codec, newline, split_lines, replay, lines_of, parse_line,
}

abbrev pub NoNewline : Bytes → Type 0
NoNewline [] = Unit {0}
NoNewline (b ∷ bytes) = (b ≢ newline) × NoNewline bytes

-- The JSON of the operation is one line that fits the scanner's buffer and is read back.
pub record Prints (codec : Codec) (op : Operation) : Type 0 where
  pub line : Bytes
  pub marshal : codec.marshal op ≡ some line
  pub no_newline : NoNewline line
  pub parsed : (ops : Queue) → parse_line codec line ops ≡ ok (put op ops)

abbrev pub AllPrint : Codec → Queue → Type 0
AllPrint codec = All (Prints codec)

split_lines-append :
    (line a b : Bytes)
    → split_lines line (a ++ newline ∷ b) ≡ split_lines line (a ++ newline ∷ []) ++ split_lines [] b
unfolding split_lines
split_lines-append line [] b = ground arith
split_lines-append line (x ∷ a) b =
    ground (arith, split_lines-append [] a b, split_lines-append (line ++ x ∷ []) a b)

pub one_line :
    (line a : Bytes) → NoNewline a → split_lines line (a ++ newline ∷ []) ≡ (line ++ a) ∷ []
unfolding split_lines
one_line line [] h = ground (arith, append-nil line)
one_line line (x ∷ a) (h, k) =
    ground (arith, one_line (line ++ x ∷ []) a k, append_assoc line (x ∷ []) a)

-- the file is empty, or its last line is closed
abbrev pub Closed : Bytes → Type 0
Closed bytes = (bytes ≡ []) ⊎ ((a : Bytes) × (bytes ≡ a ++ newline ∷ []))

pub Closed-append : (a b : Bytes) → Closed b → Closed (a ++ newline ∷ b)
Closed-append a b (inl e) = inr (a, rw e refl)
Closed-append a b (inr (c, e)) =
    inr (a ++ newline ∷ c, rw (e, append_assoc a (newline ∷ c) (newline ∷ [])) refl)

pub split_lines-Closed :
    (a b : Bytes) → Closed a → split_lines [] (a ++ b) ≡ split_lines [] a ++ split_lines [] b
unfolding split_lines
split_lines-Closed a b (inl e) = rw e refl
split_lines-Closed a b (inr (c, e)) =
    rw (e, append_assoc c (newline ∷ []) b) (split_lines-append [] c b)

module _ (codec : Codec) where
  pub replay-append :
      (xs ys : List Bytes) (q : Queue)
      → replay codec (xs ++ ys) q ≡ (replay codec xs q >>= replay codec ys)
  unfolding replay
  replay-append [] ys q = refl
  replay-append (x ∷ xs) ys q = elim (Result-cases (parse_line codec x q)) [
    | inl (p, e) ↦ rw e (replay-append xs ys p)
    | inr (x, e) ↦ rw e refl
  ]

  -- assignments, one after another
  abbrev pub put_all : Queue → Queue → Queue
  put_all [] q = q
  put_all (op ∷ ops) q = put_all ops (put op q)

  pub put_all-Distinct : (ops q : Queue) → Distinct q → Distinct (put_all ops q)
  put_all-Distinct [] q d = d
  put_all-Distinct (op ∷ ops) q d = put_all-Distinct ops (put op q) (put-Distinct op q d)

  pub find-put_all :
      (j : String) (ops q : Queue)
      → Distinct ops
      → find j (put_all ops q) ≡ elim (find j ops) [ none ↦ find j q | some op ↦ some op ]
  unfolding find
  find-put_all j [] q d = refl
  find-put_all j (op ∷ ops) q (f, d) =
      ground
        (arith, find-put_all j ops (put op q) d, find-put j op q, eq_iff op.client_request_id j)

  pub replay-lines_of :
      (ops q : Queue)
      → AllPrint codec ops
      → ((lines_of codec ops).1 ≡ false)
        × (replay codec (split_lines [] (lines_of codec ops).0) q ≡ ok (put_all ops q))
        × Closed (lines_of codec ops).0
  unfolding lines_of replay split_lines
  replay-lines_of [] q h = (refl, refl, inl refl)
  replay-lines_of (op ∷ ops) q (p, h) =
      let (fine, replayed, closed) = replay-lines_of ops (put op q) h in
      rw (p.marshal, lines_of)
        (
          fine,
          rw
              (
                split_lines-append [] p.line (lines_of codec ops).0,
                one_line [] p.line p.no_newline,
                p.parsed q,
              )
              replayed,
          Closed-append p.line (lines_of codec ops).0 closed,
        )
