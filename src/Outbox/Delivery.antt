-- ===== src/Outbox/Delivery.antt =====
-- What a pass of the relay guarantees: in any environment, and in one where every call succeeds.
use mathlib.Core.List.{append-nil, append_assoc, map-append}
use maritime_test_lab.Prelude.{
  ℕ, zero, suc, ◌-◌, false, none, List, [], ◌∷◌, ◌++◌, map, ◌≡◌, refl, arith, ap, sym, ◌∙◌, length,
}
use maritime_test_lab.Repository.{OutboxRow, committed}
use maritime_test_lab.Outbox.{
  PollEnv, Relay, produced, where_unpublished, unpublished, limit, mark_published, take, publish,
  publish_all, flush,
}
use maritime_test_lab.Outbox.Order.{Between, Between-mark_published, batch_oldest, mark_oldest}
use maritime_test_lab.Kafka.{Produced, acked}

abbrev pub drop : ℕ → List OutboxRow → List OutboxRow
drop zero rows = rows
drop (suc n) [] = []
drop (suc n) (r ∷ rows) = drop n rows

-- every call of the environment succeeds
pub record Healthy (env : PollEnv) : Type 0 where
  pub query : env.query_fails ≡ false
  pub ack : (id : ℕ) → env.ack id ≡ acked
  pub mark : (id : ℕ) → env.mark id ≡ committed

mark_all : ℕ → List OutboxRow → List OutboxRow → List OutboxRow
mark_all now [] rows = rows
mark_all now (r ∷ batch) rows = mark_all now batch (mark_published now r.id rows)

Between-mark_all :
    (now lo hi : ℕ) (batch rows : List OutboxRow)
    → Between lo hi rows
    → Between lo hi (mark_all now batch rows)
unfolding mark_all
Between-mark_all now lo hi [] rows b = b
Between-mark_all now lo hi (r ∷ batch) rows b =
    Between-mark_all now lo hi batch (mark_published now r.id rows)
      (Between-mark_published now r.id lo hi rows b)

mark_all_oldest :
    (now lo hi n : ℕ) (rows pending : List OutboxRow)
    → Between lo hi rows
    → where_unpublished rows ≡ pending
    → where_unpublished (mark_all now (take n pending) rows) ≡ drop n pending
unfolding mark_all take
mark_all_oldest now lo hi zero rows pending b e = e
mark_all_oldest now lo hi (suc n) rows [] b e = e
mark_all_oldest now lo hi (suc n) rows (r ∷ rest) b e =
    mark_all_oldest now lo hi n (mark_published now r.id rows) rest
      (Between-mark_published now r.id lo hi rows b) (mark_oldest now lo hi rows rest r b e)

publish-Healthy :
    (env : PollEnv) (row : OutboxRow) (s : Relay)
    → Healthy env
    → publish env row s ≡ (
      none,
      record {
        db = record s.db { outbox = mark_published env.now row.id s.db.outbox };
        log = s.log ++ produced row ∷ [];
      },
    )
unfolding publish
publish-Healthy env row s h = ground (arith, h.ack row.id, h.mark row.id)

publish_all-Healthy :
    (env : PollEnv) (batch : List OutboxRow) (s : Relay)
    → Healthy env
    → publish_all env batch s ≡ (
      none,
      record {
        db = record s.db { outbox = mark_all env.now batch s.db.outbox };
        log = s.log ++ map produced batch;
      },
    )
unfolding publish_all mark_all
publish_all-Healthy env [] s h = ap (λ log. (none, record s { log = log })) (sym (append-nil s.log))
publish_all-Healthy env (row ∷ batch) s h = rw (publish-Healthy env row s h) (
    publish_all-Healthy env batch _ h
    ∙ ap
        (λ log. (
          none,
          record {
            db = record s.db { outbox = mark_all env.now (row ∷ batch) s.db.outbox };
            log = log;
          },
        ))
        (append_assoc s.log (produced row ∷ []) (map produced batch)))

pub flush_runs :
    (env : PollEnv) (s : Relay) (lo hi : ℕ)
    → env.query_fails ≡ false
    → Between lo hi s.db.outbox
    → flush env s ≡ publish_all env (take limit (where_unpublished s.db.outbox)) s
unfolding flush unpublished
flush_runs env s lo hi h b = ground (arith, batch_oldest lo hi limit s.db.outbox b)

abbrev pub pending : Relay → List OutboxRow
pending s = where_unpublished s.db.outbox

-- A pass in which every call succeeds appends the 100 oldest unpublished rows to the broker's log, in the
-- order in which they were written, and leaves just the other rows unpublished.
pub flush-Healthy :
    (env : PollEnv) (s : Relay) (lo hi : ℕ)
    → Healthy env
    → Between lo hi s.db.outbox
    → ((flush env s).0 ≡ none)
      × ((flush env s).1.log ≡ s.log ++ map produced (take limit (pending s)))
      × (pending (flush env s).1 ≡ drop limit (pending s))
      × Between lo hi (flush env s).1.db.outbox
flush-Healthy env s lo hi h b =
    rw (flush_runs env s lo hi h.query b, publish_all-Healthy env (take limit (pending s)) s h)
      (
        refl,
        refl,
        mark_all_oldest env.now lo hi limit s.db.outbox (pending s) b refl,
        Between-mark_all env.now lo hi (take limit (pending s)) s.db.outbox b,
      )

pub length-drop : (n : ℕ) (rows : List OutboxRow) → length (drop n rows) ≡ length rows - n
length-drop zero rows = omega arith
length-drop (suc n) [] = omega arith
length-drop (suc n) (r ∷ rows) = omega (arith, length-drop n rows)

take-append-drop : (n : ℕ) (rows : List OutboxRow) → take n rows ++ drop n rows ≡ rows
unfolding take
take-append-drop zero rows = refl
take-append-drop (suc n) [] = refl
take-append-drop (suc n) (r ∷ rows) = ap (◌∷◌ r) (take-append-drop n rows)

pub log_regroup :
    (n : ℕ) (log : List Produced) (rows : List OutboxRow)
    → (log ++ map produced (take n rows)) ++ map produced (drop n rows) ≡ log ++ map produced rows
log_regroup n log rows =
    append_assoc log (map produced (take n rows)) (map produced (drop n rows))
    ∙ ap (◌++◌ log) (
        sym (map-append produced (take n rows) (drop n rows))
        ∙ ap (map produced) (take-append-drop n rows))
