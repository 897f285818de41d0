-- ===== src/Tests/Json.antt =====
-- The lines of the queue's file.
use Prim.Native.String.{String}
use maritime_test_lab.Prelude.{
  ℕ, zero, suc, ◌^◌, ◌-◌, Option, none, some, [], err, ◌≡◌, refl, arith, ap, length, inl, false,
  All, ◌⊎◌, ◌==◌, if◌then◌else◌, ◌∷◌, ok,
}
use maritime_test_lab.Prelude.Int.{◌≤ℤ◌, negsuc}
use maritime_test_lab.Onboard.Operation.{Operation}
use maritime_test_lab.Onboard.Queue.{find}
use maritime_test_lab.Onboard.Store.{Bytes, Store, append, open_store, pending, load, scan_error}
use maritime_test_lab.Onboard.Store.Durable.{Durable}
use maritime_test_lab.Onboard.Json.{codes, marshal, codec, write_text, write_int}
use maritime_test_lab.Onboard.Json.Files.{append_long_locks}
use maritime_test_lab.Onboard.Port.{enqueue_all}
use maritime_test_lab.Onboard.Port.Jsonl.{jsonl, enqueue_all-reopen}
use mathlib.Core.List.{Mem}
use maritime_test_lab.Tests.Onboard.{sound, sound-Sound, created, updated}

marshal_created :
    marshal created
    ≡ codes
        "{\"client_request_id\":\"a\",\"kind\":\"create\",\"origin\":\"NLRTM\",\"dest\":\"SGSIN\",\"distance_nm\":7,\"fees_minor\":150,\"version\":1}"
unfolding marshal
marshal_created = refl

escapes : write_text "<\"\\" ≡ codes "\"\\u003c\\\"\\\\\""
unfolding write_text
escapes = refl

least : write_int (negsuc (2 ^ 63 - 1)) ≡ codes "-9223372036854775808"
unfolding write_int
least = refl

-- reads every line as one operation
abbrev reads_created : Bytes → Option Operation
reads_created bytes = some created

abbrev fresh : Store
fresh = record { ops = []; file = none; tmp = none }

fresh-Durable : Durable (codec reads_created) fresh
unfolding load find
fresh-Durable = record {
  distinct = tt;
  prints = tt;
  closed = inl refl;
  replayed = [];
  apart = tt;
  loads = refl;
  same = λ j. refl;
}

abbrev before_last : Bytes → ℕ
before_last [] = 0
before_last (a ∷ []) = 0
before_last (a ∷ b ∷ []) = a
before_last (a ∷ b ∷ c ∷ bytes) = before_last (b ∷ c ∷ bytes)

-- tells the creation and the update of the voyage by their versions
abbrev reads_both : Bytes → Option Operation
reads_both bytes = if before_last bytes == b'1' then some created else some updated

fresh_too : Durable (codec reads_both) fresh
unfolding load find
fresh_too = record {
  distinct = tt;
  prints = tt;
  closed = inl refl;
  replayed = [];
  apart = tt;
  loads = refl;
  same = λ j. refl;
}

enqueue_all-reopen_example :
    (t : Store) × (open_store
        (codec reads_both)
        false
        (enqueue_all (jsonl (codec reads_both) sound) (updated ∷ created ∷ []) fresh).file
        none
      ≡ ok t)
    × All
        (λ op.
          (p : Operation) × (find op.client_request_id (pending t) ≡ some p)
          × (op.version ≤ℤ p.version))
        (updated ∷ created ∷ [])
    × ((j : String) (p : Operation)
        → find j (pending t) ≡ some p
        → (find j (pending fresh) ≡ some p) ⊎ Mem p (updated ∷ created ∷ []))
unfolding marshal
enqueue_all-reopen_example =
    enqueue_all-reopen reads_both sound (updated ∷ created ∷ []) fresh none sound-Sound fresh_too
      ((refl, omega arith), ((refl, omega arith), tt))

repeated : ℕ → String
repeated zero = ""
repeated (suc n) = String.◌∷◌ "x" (repeated n)

repeated-length : (n : ℕ) → length (codes (repeated n)) ≡ n
unfolding repeated
repeated-length zero = refl
repeated-length (suc n) = ap suc (repeated-length n)

abbrev long : Operation
long = record created { origin = repeated (2 ^ 16) }

append_long_locks_example :
    ((append (codec reads_created) sound long fresh).0 ≡ none)
    × (open_store
          (codec reads_created)
          false
          (append (codec reads_created) sound long fresh).1.file
          none
        ≡ err scan_error)
append_long_locks_example =
    append_long_locks reads_created sound long fresh none sound-Sound fresh-Durable
      (omega (arith, repeated-length (2 ^ 16)))
