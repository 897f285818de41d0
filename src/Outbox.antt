-- ===== src/Outbox.antt =====
-- services/voyage/adapters/kafka/poller.go: the relay of the transactional outbox. A broker answers
-- a produce with an acknowledgement, refuses it, or keeps the record and loses the answer.
pub mod Order
pub mod Delivery
pub mod Safety
pub mod Poller
pub mod TraceContext
use maritime_test_lab.Prelude.{
  ℕ, zero, suc, String, Bool, true, false, Option, none, some, List, [], ◌∷◌, ◌++◌, map, Result, ok,
  err, if◌then◌else◌, leb, ◌==◌,
}
use maritime_test_lab.Voyage.{Error, infra}
use maritime_test_lab.Repository.{OutboxRow, Db, Commit, committed, rolled_back}
use maritime_test_lab.Kafka.{Produced, Ack, acked, refused, answer_lost, append_log}

-- What the environment does during one pass, by the id of the row.
pub record PollEnv : Type 0 where
  pub now : ℕ
  pub query_fails : Bool
  pub ack : ℕ → Ack
  pub mark : ℕ → Commit

-- the database and the broker's log of the topic, oldest first
pub record Relay : Type 0 where
  pub db : Db
  pub log : List Produced

-- `ORDER BY id`
unfoldable pub insert_by_id : OutboxRow → List OutboxRow → List OutboxRow
insert_by_id r [] = r ∷ []
insert_by_id r (q ∷ rows) = if leb r.id q.id then r ∷ q ∷ rows else q ∷ insert_by_id r rows

unfoldable pub order_by_id : List OutboxRow → List OutboxRow
unfolding insert_by_id
order_by_id [] = []
order_by_id (r ∷ rows) = insert_by_id r (order_by_id rows)

abbrev pub is_null : Option ℕ → Bool
is_null none = true
is_null (some t) = false

-- `WHERE published_at IS NULL`
unfoldable pub where_unpublished : List OutboxRow → List OutboxRow
where_unpublished [] = []
where_unpublished (r ∷ rows) =
    if is_null r.published_at then r ∷ where_unpublished rows else where_unpublished rows

unfoldable pub take : ℕ → List OutboxRow → List OutboxRow
take zero rows = []
take (suc n) [] = []
take (suc n) (r ∷ rows) = r ∷ take n rows

abbrev pub limit : ℕ
limit = 100

-- `SELECT … WHERE published_at IS NULL ORDER BY id LIMIT 100`
unfoldable pub unpublished : List OutboxRow → List OutboxRow
unpublished rows = take limit (order_by_id (where_unpublished rows))

-- `UPDATE outbox SET published_at = now() WHERE id = $1`
unfoldable pub mark_published : ℕ → ℕ → List OutboxRow → List OutboxRow
mark_published now id [] = []
mark_published now id (r ∷ rows) =
    (if r.id == id then record r { published_at = some now } else r) ∷ mark_published now id rows

abbrev pub produced : OutboxRow → Produced
produced r = record { topic = r.topic; value = r.payload }

-- what follows the broker's answer; a stamp that fails may have taken effect
unfoldable pub settle : Ack → Commit → ℕ → OutboxRow → Relay → Option Error × Relay
unfolding mark_published
settle acked rolled_back now row s =
    (some infra, record s { log = append_log acked (produced row) s.log })
settle acked Commit.answer_lost now row s = (
  some infra,
  record {
    db = record s.db { outbox = mark_published now row.id s.db.outbox };
    log = append_log acked (produced row) s.log;
  },
)
settle acked committed now row s = (
  none,
  record {
    db = record s.db { outbox = mark_published now row.id s.db.outbox };
    log = append_log acked (produced row) s.log;
  },
)
settle refused stamp now row s = (none, s)
settle answer_lost stamp now row s =
    (none, record s { log = append_log answer_lost (produced row) s.log })

-- the body of the loop of `Flush`, for one row: `some` is the early return with an error
unfoldable pub publish : PollEnv → OutboxRow → Relay → Option Error × Relay
unfolding settle
publish env row s = settle (env.ack row.id) (env.mark row.id) env.now row s

abbrev pub unless {ℓ} : {S : Type ℓ} → Option Error × S → (S → Option Error × S) → Option Error × S
unless (some e, s) f = (some e, s)
unless (none, s) f = f s

unfoldable pub publish_all : PollEnv → List OutboxRow → Relay → Option Error × Relay
unfolding publish
publish_all env [] s = (none, s)
publish_all env (row ∷ rows) s = unless (publish env row s) (publish_all env rows)

unfoldable pub flush : PollEnv → Relay → Option Error × Relay
flush env s =
    if env.query_fails then (some infra, s) else publish_all env (unpublished s.db.outbox) s
