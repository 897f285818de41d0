-- ===== src/Tests/Onboard.antt =====
-- clients/onboard-sync on small inputs.
use maritime_test_lab.Prelude.{
  All, ◌≢◌, String, false, Option, none, some, [], ◌∷◌, ok, err, ◌≡◌, refl, if◌then◌else◌, str_eq,
  ◌==◌, inr, ◌-◌, ◌*◌, ◌≤◌, ◌⊎◌, ◌≢◌,
}
use maritime_test_lab.Prelude.Int.{pos}
use maritime_test_lab.Onboard.Operation.{Operation, kind_create, kind_update}
use maritime_test_lab.Onboard.Queue.{Queue, find, put, remove, sort}
use maritime_test_lab.Onboard.Retry.{RetryPolicy, Draws}
use maritime_test_lab.Onboard.Store.{
  Store, Codec, Disk, Bytes, whole, short, append, ack, load, replay, split_lines, drop_cr,
  open_store, parse_line, pending, lines_of, write_error, parse_error,
}
use maritime_test_lab.Onboard.Store.Replay.{Prints}
use maritime_test_lab.Onboard.Store.Durable.{
  Durable, Sound, append-Durable, ack-Durable, torn_append, ack_atomic,
}
use maritime_test_lab.Onboard.Syncer.{Syncer, enqueue, sync_once, retry_backoff}
use maritime_test_lab.Onboard.Syncer.Laws.{Synced, enqueue_loses_create, sync_once-Synced}
use maritime_test_lab.Onboard.Client.{Client, new, millisecond}
use maritime_test_lab.Onboard.Client.Laws.{new-Durable}

abbrev pub created : Operation
created = record {
  client_request_id = "a";
  kind = kind_create;
  origin = "NLRTM";
  dest = "SGSIN";
  distance_nm = pos 7;
  fees_minor = pos 150;
  version = pos 1;
}

abbrev pub updated : Operation
updated = record created { kind = kind_update; version = pos 2 }

abbrev pub other : Operation
other = record created { client_request_id = "b" }

-- a codec that knows the three operations
abbrev line_of : Operation → Option Bytes
line_of op =
    if str_eq op.client_request_id "b"
    then some (3 ∷ [])
    else if str_eq op.kind kind_update
    then some (2 ∷ [])
    else some (1 ∷ 125 ∷ [])

abbrev operation_of : Bytes → Option Operation
operation_of (a ∷ b ∷ []) = if a == 1 then some created else none
operation_of (a ∷ []) = if a == 2 then some updated else if a == 3 then some other else none
operation_of _ = none

abbrev pub codec : Codec
codec = record { marshal = line_of; unmarshal = operation_of }

abbrev pub sound : Disk
sound = record {
  open_fails = false;
  write = whole;
  sync_fails = false;
  close_fails = false;
  rename_fails = false;
}

-- a write that is cut after its first byte
abbrev cut : Disk
cut = record sound { write = short 1 }

pub sound-Sound : Sound sound
sound-Sound = record {
  open_fails = refl;
  write = refl;
  sync_fails = refl;
  close_fails = refl;
  rename_fails = refl;
}

created-Prints : Prints codec created
unfolding parse_line drop_cr
created-Prints = record {
  line = 1 ∷ 125 ∷ [];
  marshal = refl;
  no_newline = (λ e. cc, (λ e. cc, tt));
  parsed = λ ops. refl;
}

pub updated-Prints : Prints codec updated
unfolding parse_line drop_cr
updated-Prints = record {
  line = 2 ∷ [];
  marshal = refl;
  no_newline = (λ e. cc, tt);
  parsed = λ ops. refl;
}

other-Prints : Prints codec other
unfolding parse_line drop_cr
other-Prints = record {
  line = 3 ∷ [];
  marshal = refl;
  no_newline = (λ e. cc, tt);
  parsed = λ ops. refl;
}

-- the other voyage's creation is pending
abbrev one : Store
one = record { ops = other ∷ []; file = some (3 ∷ 10 ∷ []); tmp = none }

one-Durable : Durable codec one
unfolding find load replay split_lines parse_line drop_cr put
one-Durable = record {
  distinct = (refl, tt);
  prints = (other-Prints, tt);
  closed = inr (3 ∷ [], refl);
  replayed = other ∷ [];
  apart = (refl, tt);
  loads = refl;
  same = λ j. refl;
}

abbrev pub idle : Syncer
idle = record { store = one; retry_count = 0; last_attempt = 0; last_error = "" }

append-Durable_example :
    ((append codec sound created one).0 ≡ none)
    × Durable codec (append codec sound created one).1
    × ((j : String)
        → find j (append codec sound created one).1.ops
          ≡ (if str_eq "a" j then some created else find j (other ∷ [])))
append-Durable_example =
    append-Durable codec sound sound-Sound created one created-Prints one-Durable

ack-Durable_example :
    ((ack codec sound "b" one).0 ≡ none)
    × Durable codec (ack codec sound "b" one).1
    × ((j : String)
        → find j (ack codec sound "b" one).1.ops
          ≡ (if str_eq "b" j then none else find j (other ∷ [])))
ack-Durable_example = ack-Durable codec sound sound-Sound "b" one one-Durable

new-Durable_example :
    (c : Client) × (new codec (λ n. 0) false (some (3 ∷ 10 ∷ [])) none "http://gateway/query" 9
      ≡ ok c)
    × Durable codec c.syncer.store
    × ((j : String) → find j (pending c.syncer.store) ≡ find j (pending one))
    × (c.syncer.retry_count ≡ 0)
    × (Draws c.retry → retry_backoff c.retry c.syncer ≤ 100 * millisecond)
new-Durable_example = new-Durable codec (λ n. 0) one none "http://gateway/query" 9 one-Durable

torn_append_example :
    ((append codec cut created one).0 ≡ some write_error)
    × (open_store codec false (append codec cut created one).1.file none ≡ err parse_error)
unfolding split_lines parse_line drop_cr
torn_append_example =
    torn_append codec cut created one (1 ∷ 125 ∷ []) (1 ∷ []) 1 parse_error none one-Durable refl
      refl refl refl (λ ops. refl)

ack_atomic_example :
    (((ack codec cut "b" one).0 ≢ none) × ((ack codec cut "b" one).1.file ≡ one.file))
    ⊎ (((ack codec cut "b" one).0 ≡ none)
        × ((ack codec cut "b" one).1.file ≡ some (lines_of codec (sort (remove "b" one.ops))).0))
ack_atomic_example = ack_atomic codec cut "b" one

abbrev overtaken : Queue
overtaken = pending (enqueue codec sound updated (enqueue codec sound created idle).1).1.store

enqueue_loses_create_example :
    (find "a" overtaken ≡ some updated)
    × All (λ op. op.client_request_id ≡ "a" → (op ≡ updated) × (op.kind ≢ kind_create)) overtaken
unfolding find
enqueue_loses_create_example =
    enqueue_loses_create codec sound sound created updated idle sound-Sound sound-Sound one-Durable
      created-Prints updated-Prints refl refl refl refl

-- the server is reached for every operation
abbrev online : Operation → Option String
online op = none

sync_once-Synced_example :
    Synced codec online
      (λ op. 9)
      (λ op. sound)
      (λ op. sound-Sound)
      (pending one)
      0
      idle
      (sync_once codec online (λ op. 9) (λ op. sound) idle).1
      (sync_once codec online (λ op. 9) (λ op. sound) idle).0
sync_once-Synced_example =
    sync_once-Synced codec online (λ op. 9) (λ op. sound) (λ op. sound-Sound) idle one-Durable

abbrev policy : RetryPolicy
policy = record { base = 100; cap = 3000; int63n = λ n. n - 1 }
