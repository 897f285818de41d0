-- ===== src/Repository.antt =====
-- services/voyage/adapters/postgres: the tables of migrations/*.sql, the statements of
-- repository.go, and the methods of the repository. A statement is an atomic step, and a
-- transaction takes effect at its commit.
pub mod Rows
pub mod Outcomes
pub mod Answers
pub mod Creates
pub mod Updates
pub mod Estimates
pub mod Spec
use maritime_test_lab.Prelude.{
  ℕ, suc, String, Bool, true, false, Option, none, some, List, [], ◌∷◌, ◌++◌, map, Result, ok, err,
  if◌then◌else◌, str_eq, ◌&&◌, not,
}
use maritime_test_lab.Prelude.Int.{ℤ, pos, ltb_ℤ, eqb_ℤ}
use maritime_test_lab.Voyage.{Voyage, Error, voyage_not_found, infra}

-- a row of `voyages`; `none` in a nullable column is NULL
pub record Row : Type 0 where
  pub client_request_id : String
  pub origin : String
  pub dest : String
  pub distance_nm : ℤ
  pub fees_minor : ℤ
  pub version : ℤ
  pub estimate_minor : Option ℤ
  pub created_at : ℕ

pub record OutboxRow : Type 0 where
  pub id : ℕ
  pub topic : String
  pub payload : List ℕ
  pub trace_carrier : List ℕ
  pub published_at : Option ℕ

-- The identity sequence is no part of a transaction: an id that was drawn stays drawn.
pub record Db : Type 0 where
  pub voyages : List Row
  pub outbox : List OutboxRow
  pub next_id : ℕ

-- the database and the process-wide counter of metrics.go
pub record State : Type 0 where
  pub db : Db
  pub open db use *
  pub dedupe_total : ℕ

abbrev pub empty : State
empty = record { db = record { voyages = []; outbox = []; next_id = 1 }; dedupe_total = 0 }

-- A commit that fails may have taken effect before its answer was lost.
pub data Commit : Type 0 where
  committed rolled_back answer_lost : Commit

-- What the environment does during a call: its clock, the calls that fail, and the trace carrier.
pub record Env : Type 0 where
  pub now : ℕ
  pub begin_fails : Bool
  pub query_fails : Bool
  pub exec_fails : Bool
  pub commit : Commit
  pub read_fails : Bool
  pub carrier : Result Error (List ℕ)

-- the topic and the bytes of an event
abbrev pub OutboxEncoder : Type 0
OutboxEncoder = Voyage → Result Error (String × List ℕ)

-- `WHERE client_request_id = $1`
unfoldable pub find : String → List Row → Option Row
find id [] = none
find id (r ∷ rs) = if str_eq r.client_request_id id then some r else find id rs

-- `UPDATE voyages SET … WHERE …`
unfoldable pub update_where : (Row → Bool) → (Row → Row) → List Row → List Row
update_where test change [] = []
update_where test change (r ∷ rs) = (if test r then change r else r) ∷ update_where test change rs

-- the row of `INSERT INTO voyages …`
abbrev pub new_row : ℕ → Voyage → Row
new_row now v = record {
  client_request_id = v.client_request_id;
  origin = v.origin;
  dest = v.dest;
  distance_nm = v.distance_nm;
  fees_minor = v.fees_minor;
  version = pos 1;
  estimate_minor = none;
  created_at = now;
}

-- `ON CONFLICT (client_request_id) DO NOTHING RETURNING …`
unfoldable pub insert_voyage : ℕ → Voyage → List Row → Option (Row × List Row)
insert_voyage now v rows = elim (find v.client_request_id rows) [
  | some _ ↦ none
  | none ↦ some (new_row now v, rows ++ new_row now v ∷ [])
]

abbrev or_zero : Option ℤ → ℤ
or_zero none = pos 0
or_zero (some n) = n

-- NULL means pending, and reads as 0.
unfoldable pub scan_voyage : Row → Voyage
scan_voyage r = record {
  client_request_id = r.client_request_id;
  origin = r.origin;
  dest = r.dest;
  distance_nm = r.distance_nm;
  fees_minor = r.fees_minor;
  version = r.version;
  estimate_minor = or_zero r.estimate_minor;
}

unfoldable pub get : Env → String → State → Result Error Voyage
get env id s =
    if env.read_fails
    then err infra
    else elim (find id s.voyages) [ none ↦ err voyage_not_found | some r ↦ ok (scan_voyage r) ]

-- `INSERT INTO outbox …`
unfoldable pub insert_outbox : String → List ℕ → List ℕ → Db → Db
insert_outbox topic payload carrier db = record db {
  outbox =
      db.outbox
      ++ record {
        id = db.next_id;
        topic = topic;
        payload = payload;
        trace_carrier = carrier;
        published_at = none;
      }
        ∷ [];
  next_id = suc db.next_id;
}

-- `tx.Commit`: the database before the transaction, and the one that it would leave
unfoldable pub finish : Commit → Db → Db → Db
finish committed before after = after
finish rolled_back before after = record before { next_id = after.next_id }
finish answer_lost before after = after

-- what the caller sees of a commit, with the answer that it is for
abbrev pub commit_answer {ℓ} : {A : Type ℓ} → Commit → Result Error A → Result Error A
commit_answer committed answer = answer
commit_answer rolled_back answer = err infra
commit_answer answer_lost answer = err infra

-- A statement outside of a transaction commits by itself: the state before it, and the one that it would leave.
abbrev pub kept : Commit → State → State → State
kept committed s t = t
kept rolled_back s t = s
kept answer_lost s t = t

module _ (encode : OutboxEncoder) where
  -- after the insert: encode, inject the trace carrier, write the outbox row, and commit
  pub create_event : Env → Row → List Row → State → Result Error Voyage × State
  unfolding scan_voyage insert_outbox finish
  create_event env created rows s = elim (encode (scan_voyage created)) [
    | err e ↦ (err e, s)
    | ok (topic, payload) ↦ elim env.carrier [
      | err e ↦ (err e, s)
      | ok carrier ↦ if env.exec_fails then (err infra, s) else (
        commit_answer env.commit (ok (scan_voyage created)),
        record s {
          db =
              finish env.commit s.db
                (insert_outbox topic payload carrier (record s.db { voyages = rows }));
        },
      )
    ]
  ]

  unfoldable pub create : Env → Voyage → State → Result Error Voyage × State
  unfolding create_event insert_voyage get
  create env v s =
      if env.begin_fails
      then (err infra, s)
      else if env.query_fails
      then (err infra, s)
      else elim (insert_voyage env.now v s.voyages) [
        | none ↦ (get env v.client_request_id s, record s { dedupe_total = suc s.dedupe_total })
        | some (created, rows) ↦ create_event env created rows s
      ]

-- `WHERE client_request_id = $1 AND version < $6`
abbrev pub is_older : Voyage → Row → Bool
is_older v r = str_eq r.client_request_id v.client_request_id && ltb_ℤ r.version v.version

abbrev pub replace : Voyage → Row → Row
replace v r = record r {
  origin = v.origin;
  dest = v.dest;
  distance_nm = v.distance_nm;
  fees_minor = v.fees_minor;
  version = v.version;
}

unfoldable pub update_higher_wins : Voyage → List Row → List Row
unfolding update_where
update_higher_wins v = update_where (is_older v) (replace v)

unfoldable pub update : Env → Voyage → State → Result Error Voyage × State
unfolding get
update env v s =
    if env.exec_fails
    then (err infra, s)
    else (let s' : State = record s {
      db = record s.db { voyages = update_higher_wins v s.voyages };
    } in
        (commit_answer env.commit (get env v.client_request_id s'), kept env.commit s s'))

-- `estimate_minor IS DISTINCT FROM $3`
abbrev pub is_distinct : Option ℤ → ℤ → Bool
is_distinct none n = true
is_distinct (some m) n = not (eqb_ℤ m n)

abbrev pub takes_estimate : String → ℤ → ℤ → Row → Bool
takes_estimate id version amount r =
    str_eq r.client_request_id id
    && (eqb_ℤ r.version version && is_distinct r.estimate_minor amount)

abbrev pub set_estimate : ℤ → Row → Row
set_estimate amount r = record r { estimate_minor = some amount }

-- the first row that a condition holds of, whose columns `RETURNING` hands to `QueryRow`
unfoldable pub first_where : (Row → Bool) → List Row → Option Row
first_where test [] = none
first_where test (r ∷ rs) = if test r then some r else first_where test rs

-- the answer (whether a row was written, and its created_at), and the new state
unfoldable pub upsert_estimate : Env → String → ℤ → ℤ → State → Result Error (Option ℕ) × State
unfolding first_where
upsert_estimate env id version amount s =
    if env.query_fails
    then (err infra, s)
    else elim (first_where (takes_estimate id version amount) s.voyages) [
      | none ↦ (commit_answer env.commit (ok none), s)
      | some r ↦ (
        commit_answer env.commit (ok (some r.created_at)),
        kept env.commit s (record s {
          db = record s.db {
            voyages =
                update_where (takes_estimate id version amount) (set_estimate amount) s.voyages;
          };
        }),
      )
    ]
