-- ===== src/Outbox/Safety.antt =====
-- Flag-on-ack: in any environment a row is stamped only when the broker holds its record.
use mathlib.Core.List.{
  Mem, mem-append_left, mem-append_right, mem-cons_self, append-nil, append_assoc,
}
use maritime_test_lab.Prelude.{
  ℕ, zero, suc, ◌<◌, true, false, Option, none, some, List, [], ◌∷◌, ◌++◌, map, ◌≡◌, refl, arith,
  ap, sym, ◌∙◌, Bool-cases, inl, inr,
}
use maritime_test_lab.Voyage.{Error, infra}
use maritime_test_lab.Repository.{OutboxRow, Commit, committed, rolled_back}
use maritime_test_lab.Outbox.{
  PollEnv, Relay, produced, where_unpublished, limit, mark_published, take, publish, publish_all,
  flush, is_null, settle, unless,
}
use maritime_test_lab.Outbox.Order.{Between, Between-where_unpublished}
use maritime_test_lab.Outbox.Delivery.{flush_runs}
use maritime_test_lab.Kafka.{Produced, Ack, acked, refused, answer_lost}

-- the record of each stamped row is in the log
abbrev pub Logged : List Produced → List OutboxRow → Type 0
Logged log [] = Unit {0}
Logged log (r ∷ rows) = (is_null r.published_at ≡ false → Mem (produced r) log) × Logged log rows

-- rows without the stamp
abbrev pub contents : List OutboxRow → List (ℕ × Produced × List ℕ)
contents = map (λ r. (r.id, produced r, r.trace_carrier))

pub Logged-append :
    (log more : List Produced) (rows : List OutboxRow) → Logged log rows → Logged (log ++ more) rows
Logged-append log more [] h = tt
Logged-append log more (r ∷ rows) h =
    (λ e. mem-append_left more (h.0 e), Logged-append log more rows h.1)

-- every row with the id of `b` holds the record of `b`
abbrev OneRecord : OutboxRow → List OutboxRow → Type 0
OneRecord b [] = Unit {0}
OneRecord b (r ∷ rows) = (r.id ≡ b.id → produced r ≡ produced b) × OneRecord b rows

mark-Logged :
    (now : ℕ) (b : OutboxRow) (log : List Produced) (rows : List OutboxRow)
    → OneRecord b rows
    → Mem (produced b) log
    → Logged log rows
    → Logged log (mark_published now b.id rows)
unfolding mark_published
mark-Logged now b log [] one m h = tt
mark-Logged now b log (r ∷ rows) one m h =
    (ground (arith, one.0, h.0), mark-Logged now b log rows one.1 m h.1)

contents-mark_published :
    (now id : ℕ) (rows : List OutboxRow) → contents (mark_published now id rows) ≡ contents rows
unfolding mark_published
contents-mark_published now id [] = refl
contents-mark_published now id (r ∷ rows) = ground (arith, contents-mark_published now id rows)

OneRecord-mark_published :
    (now id : ℕ) (b : OutboxRow) (rows : List OutboxRow)
    → OneRecord b rows
    → OneRecord b (mark_published now id rows)
unfolding mark_published
OneRecord-mark_published now id b [] one = tt
OneRecord-mark_published now id b (r ∷ rows) one =
    (ground (arith, one.0), OneRecord-mark_published now id b rows one.1)

abbrev OneRecordAll : List OutboxRow → List OutboxRow → Type 0
OneRecordAll [] rows = Unit {0}
OneRecordAll (b ∷ batch) rows = OneRecord b rows × OneRecordAll batch rows

-- what a pass may do to the relay
pub record Relays (s t : Relay) : Type 0 where
  pub more : List Produced
  pub grown : t.log ≡ s.log ++ more
  pub kept : contents t.db.outbox ≡ contents s.db.outbox
  pub voyages : t.db.voyages ≡ s.db.voyages

pub Relays-refl : (s : Relay) → Relays s s
Relays-refl s = record { more = []; grown = sym (append-nil s.log); kept = refl; voyages = refl }

pub Relays-trans : (s t u : Relay) → Relays s t → Relays t u → Relays s u
Relays-trans s t u p q = record {
  more = p.more ++ q.more;
  grown = q.grown ∙ ap (λ l. l ++ q.more) p.grown ∙ append_assoc s.log p.more q.more;
  kept = q.kept ∙ p.kept;
  voyages = q.voyages ∙ p.voyages;
}

settle-Relays :
    (a : Ack) (stamp : Commit) (now : ℕ) (row : OutboxRow) (s : Relay)
    → Relays s (settle a stamp now row s).1
unfolding settle
settle-Relays acked rolled_back now row s = record {
  more = produced row ∷ [];
  grown = refl;
  kept = refl;
  voyages = refl;
}
settle-Relays acked Commit.answer_lost now row s = record {
  more = produced row ∷ [];
  grown = refl;
  kept = contents-mark_published now row.id s.db.outbox;
  voyages = refl;
}
settle-Relays acked committed now row s = record {
  more = produced row ∷ [];
  grown = refl;
  kept = contents-mark_published now row.id s.db.outbox;
  voyages = refl;
}
settle-Relays refused stamp now row s = Relays-refl s
settle-Relays answer_lost stamp now row s = record {
  more = produced row ∷ [];
  grown = refl;
  kept = refl;
  voyages = refl;
}

abbrev LoggedRelay : Relay → Type 0
LoggedRelay s = Logged s.log s.db.outbox

settle-Logged :
    (a : Ack) (stamp : Commit) (now : ℕ) (row : OutboxRow) (s : Relay)
    → OneRecord row s.db.outbox
    → LoggedRelay s
    → LoggedRelay (settle a stamp now row s).1
unfolding settle
settle-Logged acked rolled_back now row s one h =
    Logged-append s.log (produced row ∷ []) s.db.outbox h
settle-Logged acked Commit.answer_lost now row s one h =
    mark-Logged now row (s.log ++ produced row ∷ []) s.db.outbox one
      (mem-append_right s.log mem-cons_self) (Logged-append s.log (produced row ∷ []) s.db.outbox h)
settle-Logged acked committed now row s one h =
    mark-Logged now row (s.log ++ produced row ∷ []) s.db.outbox one
      (mem-append_right s.log mem-cons_self) (Logged-append s.log (produced row ∷ []) s.db.outbox h)
settle-Logged refused stamp now row s one h = h
settle-Logged answer_lost stamp now row s one h =
    Logged-append s.log (produced row ∷ []) s.db.outbox h

settle-OneRecordAll :
    (a : Ack) (stamp : Commit) (now : ℕ) (row : OutboxRow) (batch : List OutboxRow) (s : Relay)
    → OneRecordAll batch s.db.outbox
    → OneRecordAll batch (settle a stamp now row s).1.db.outbox
unfolding settle
settle-OneRecordAll a stamp now row [] s h = tt
settle-OneRecordAll acked rolled_back now row (b ∷ batch) s h = h
settle-OneRecordAll acked Commit.answer_lost now row (b ∷ batch) s h = (
  OneRecord-mark_published now row.id b s.db.outbox h.0,
  settle-OneRecordAll acked Commit.answer_lost now row batch s h.1,
)
settle-OneRecordAll acked committed now row (b ∷ batch) s h = (
  OneRecord-mark_published now row.id b s.db.outbox h.0,
  settle-OneRecordAll acked committed now row batch s h.1,
)
settle-OneRecordAll refused stamp now row (b ∷ batch) s h = h
settle-OneRecordAll answer_lost stamp now row (b ∷ batch) s h = h

go_on :
    (s : Relay) (p : Option Error × Relay) (f : Relay → Option Error × Relay)
    → LoggedRelay p.1 × Relays s p.1
    → LoggedRelay (f p.1).1 × Relays p.1 (f p.1).1
    → LoggedRelay (unless p f).1 × Relays s (unless p f).1
go_on s (some e, t) f here there = here
go_on s (none, t) f here there = (there.0, Relays-trans s t (f t).1 here.1 there.1)

publish_all-safe :
    (env : PollEnv) (batch : List OutboxRow) (s : Relay)
    → OneRecordAll batch s.db.outbox
    → LoggedRelay s
    → LoggedRelay (publish_all env batch s).1 × Relays s (publish_all env batch s).1
unfolding publish_all
publish_all-safe env [] s one h = (h, Relays-refl s)
publish_all-safe env (row ∷ batch) s one h =
    go_on s (publish env row s) (publish_all env batch)
      (
        settle-Logged (env.ack row.id) (env.mark row.id) env.now row s one.0 h,
        settle-Relays (env.ack row.id) (env.mark row.id) env.now row s,
      )
      (publish_all-safe env batch (publish env row s).1
        (settle-OneRecordAll (env.ack row.id) (env.mark row.id) env.now row batch s one.1)
        (settle-Logged (env.ack row.id) (env.mark row.id) env.now row s one.0 h))

above :
    (b : OutboxRow) (lo hi : ℕ) (rows : List OutboxRow)
    → Between lo hi rows
    → b.id < lo
    → OneRecord b rows
above b lo hi [] w h = tt
above b lo hi (r ∷ rows) w h =
    (λ e. absurd (omega arith), above b (suc r.id) hi rows w.1 (omega arith))

weaken_all :
    (r : OutboxRow) (lo hi : ℕ) (batch rows : List OutboxRow)
    → Between lo hi batch
    → r.id < lo
    → OneRecordAll batch rows
    → OneRecordAll batch (r ∷ rows)
weaken_all r lo hi [] rows w h one = tt
weaken_all r lo hi (b ∷ batch) rows w h one = (
  (λ e. absurd (omega arith), one.0),
  weaken_all r (suc b.id) hi batch rows w.1 (omega arith) one.1,
)

unpublished-OneRecordAll :
    (lo hi : ℕ) (rows : List OutboxRow)
    → Between lo hi rows
    → OneRecordAll (where_unpublished rows) rows
unfolding where_unpublished
unpublished-OneRecordAll lo hi [] w = tt
unpublished-OneRecordAll lo hi (r ∷ rows) w =
    let rest =
      weaken_all r (suc r.id) hi (where_unpublished rows) rows
        (Between-where_unpublished (suc r.id) hi rows w.1) (omega arith)
        (unpublished-OneRecordAll (suc r.id) hi rows w.1) in
    ground (arith, rest, above r (suc r.id) hi rows w.1)

take-OneRecordAll :
    (n : ℕ) (batch rows : List OutboxRow)
    → OneRecordAll batch rows
    → OneRecordAll (take n batch) rows
unfolding take
take-OneRecordAll zero batch rows h = tt
take-OneRecordAll (suc n) [] rows h = tt
take-OneRecordAll (suc n) (b ∷ batch) rows h = (h.0, take-OneRecordAll n batch rows h.1)

flush_fails : (env : PollEnv) (s : Relay) → env.query_fails ≡ true → flush env s ≡ (some infra, s)
unfolding flush
flush_fails env s h = ground arith

-- In any environment (a query, a produce or a stamp may fail, and the answer of a produce or of a stamp may be lost), a pass keeps the broker's log
-- and the rows of the outbox up to their stamps, only ever appends to the log, and keeps it so that the record of every stamped
-- row is in the log. Unstamped rows are thus never lost, and a stamp never precedes its record.
pub flush_safe :
    (env : PollEnv) (s : Relay) (lo hi : ℕ)
    → Between lo hi s.db.outbox
    → Logged s.log s.db.outbox
    → Logged (flush env s).1.log (flush env s).1.db.outbox × Relays s (flush env s).1
flush_safe env s lo hi b h = elim (Bool-cases env.query_fails) [
  | inl fails ↦ rw (flush_fails env s fails) (h, Relays-refl s)
  | inr runs ↦ rw (flush_runs env s lo hi runs b) (
      publish_all-safe env (take limit (where_unpublished s.db.outbox)) s
        (take-OneRecordAll limit (where_unpublished s.db.outbox) s.db.outbox
          (unpublished-OneRecordAll lo hi s.db.outbox b))
        h)
]
