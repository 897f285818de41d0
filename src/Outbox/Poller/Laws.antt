-- ===== src/Outbox/Poller/Laws.antt =====
-- What the poller delivers in the end.
use mathlib.Core.List.{Mem, append-nil}
use maritime_test_lab.Prelude.{
  ℕ, ◌*◌, ◌≤◌, Option, none, some, List, [], ◌∷◌, ◌++◌, ◌≡◌, refl, arith, ap, length, All,
  Bool-cases, inl, inr, map, sym, ◌∙◌,
}
use maritime_test_lab.Voyage.{Error}
use maritime_test_lab.Repository.{OutboxRow, Commit, committed, rolled_back}
use maritime_test_lab.Kafka.{Produced, Ack, acked, refused, answer_lost}
use maritime_test_lab.Outbox.{
  PollEnv, Relay, produced, where_unpublished, unpublished, limit, mark_published, publish,
  publish_all, flush, settle, unless,
}
use maritime_test_lab.Outbox.Order.{Between, Between-mark_published}
use maritime_test_lab.Outbox.Delivery.{
  Healthy, pending, flush-Healthy, length-drop, log_regroup, drop,
}
use maritime_test_lab.Outbox.Safety.{
  Logged, Relays, Relays-refl, Relays-trans, contents, flush_safe,
}
use maritime_test_lab.Outbox.Poller.{run}

fewer-mark_published :
    (now id : ℕ) (rows : List OutboxRow)
    → length (where_unpublished (mark_published now id rows)) ≤ length (where_unpublished rows)
unfolding where_unpublished mark_published
fewer-mark_published now id [] = omega arith
fewer-mark_published now id (r ∷ rows) = ground (arith, fewer-mark_published now id rows)

-- the ids keep their order, and no row loses its stamp
record Shrinks (lo hi : ℕ) (s t : Relay) : Type 0 where
  between : Between lo hi t.db.outbox
  fewer : length (pending t) ≤ length (pending s)

settle-Shrinks :
    (a : Ack) (stamp : Commit) (now lo hi : ℕ) (row : OutboxRow) (s : Relay)
    → Between lo hi s.db.outbox
    → Shrinks lo hi s (settle a stamp now row s).1
unfolding settle
settle-Shrinks acked rolled_back now lo hi row s b = record { between = b; fewer = omega arith }
settle-Shrinks acked Commit.answer_lost now lo hi row s b = record {
  between = Between-mark_published now row.id lo hi s.db.outbox b;
  fewer = fewer-mark_published now row.id s.db.outbox;
}
settle-Shrinks acked committed now lo hi row s b = record {
  between = Between-mark_published now row.id lo hi s.db.outbox b;
  fewer = fewer-mark_published now row.id s.db.outbox;
}
settle-Shrinks refused stamp now lo hi row s b = record { between = b; fewer = omega arith }
settle-Shrinks answer_lost stamp now lo hi row s b = record { between = b; fewer = omega arith }

go_on :
    (lo hi : ℕ) (s : Relay) (p : Option Error × Relay) (f : Relay → Option Error × Relay)
    → Shrinks lo hi s p.1
    → Shrinks lo hi p.1 (f p.1).1
    → Shrinks lo hi s (unless p f).1
go_on lo hi s (some e, t) f here there = here
go_on lo hi s (none, t) f here there = record {
  between = there.between;
  fewer = omega (arith, here.fewer, there.fewer);
}

publish_all-Shrinks :
    (env : PollEnv) (lo hi : ℕ) (batch : List OutboxRow) (s : Relay)
    → Between lo hi s.db.outbox
    → Shrinks lo hi s (publish_all env batch s).1
unfolding publish_all publish
publish_all-Shrinks env lo hi [] s b = record { between = b; fewer = omega arith }
publish_all-Shrinks env lo hi (row ∷ batch) s b =
    let here = settle-Shrinks (env.ack row.id) (env.mark row.id) env.now lo hi row s b in
    go_on lo hi s (publish env row s) (publish_all env batch) here
      (publish_all-Shrinks env lo hi batch (publish env row s).1 here.between)

flush-Shrinks :
    (env : PollEnv) (lo hi : ℕ) (s : Relay)
    → Between lo hi s.db.outbox
    → Shrinks lo hi s (flush env s).1
unfolding flush publish_all
flush-Shrinks env lo hi s b = elim (Bool-cases env.query_fails) [
  | inl e ↦ rw e (record { between = b; fewer = omega arith })
  | inr e ↦ rw e (publish_all-Shrinks env lo hi (unpublished s.db.outbox) s b)
]

-- what holds of a relay at any time of a run from `s`
record Kept (lo hi : ℕ) (s t : Relay) : Type 0 where
  shrinks : Shrinks lo hi s t
  logged : Logged t.log t.db.outbox
  relays : Relays s t

Kept-refl :
    (lo hi : ℕ) (s : Relay) → Between lo hi s.db.outbox → Logged s.log s.db.outbox → Kept lo hi s s
Kept-refl lo hi s b l = record {
  shrinks = record { between = b; fewer = omega arith };
  logged = l;
  relays = Relays-refl s;
}

flush-Kept :
    (env : PollEnv) (lo hi : ℕ) (s t : Relay) → Kept lo hi s t → Kept lo hi s (flush env t).1
flush-Kept env lo hi s t k =
    let more = flush-Shrinks env lo hi t k.shrinks.between in
    let (logged, relays) = flush_safe env t lo hi k.shrinks.between k.logged in
    record {
      shrinks = record {
        between = more.between;
        fewer = omega (arith, more.fewer, k.shrinks.fewer);
      };
      logged = logged;
      relays = Relays-trans s t (flush env t).1 k.relays relays;
    }

no_rows : (rows : List OutboxRow) → length rows ≤ 0 → rows ≡ []
no_rows [] e = refl
no_rows (r ∷ rows) e = absurd (omega arith)

-- the relay is drained: the rows that were unpublished were produced once each, in their order
abbrev pub Drained : Relay → Relay → Type 0
Drained s t = (pending t ≡ []) × (t.log ≡ s.log ++ map produced (pending s))

good_ticks :
    (good : List PollEnv) (lo hi : ℕ) (s t : Relay)
    → All Healthy good
    → length (pending t) ≤ length good * limit
    → Kept lo hi s t
    → Drained t (run good t).1 × Kept lo hi s (run good t).1
unfolding run
good_ticks [] lo hi s t h n k =
    let empty = no_rows (pending t) n in
    ((empty, sym (append-nil t.log) ∙ ap (λ rows. t.log ++ map produced rows) (sym empty)), k)
good_ticks (env ∷ good) lo hi s t h n k =
    let (_, grown, left, _) = flush-Healthy env t lo hi h.0 k.shrinks.between in
    let ((empty, log), kept) =
      good_ticks good lo hi s (flush env t).1 h.1
        (omega (arith, ap length left, length-drop limit (pending t)))
        (flush-Kept env lo hi s t k) in
    (
      (
        empty,
        log
            ∙ ap (λ rows. (flush env t).1.log ++ map produced rows) left
            ∙ ap (λ l. l ++ map produced (drop limit (pending t))) grown
            ∙ log_regroup limit t.log (pending t),
      ),
      kept,
    )

ticks :
    (bad good : List PollEnv) (lo hi : ℕ) (s t : Relay)
    → All Healthy good
    → length (pending s) ≤ length good * limit
    → Kept lo hi s t
    → Drained (run bad t).1 (run (bad ++ good) t).1 × Kept lo hi s (run (bad ++ good) t).1
unfolding run
ticks [] good lo hi s t h n k = good_ticks good lo hi s t h (omega (arith, k.shrinks.fewer)) k
ticks (env ∷ bad) good lo hi s t h n k =
    ticks bad good lo hi s (flush env t).1 h n (flush-Kept env lo hi s t k)

-- the record of each row is in the log
abbrev pub Delivered : List Produced → List OutboxRow → Type 0
Delivered log = All (λ r. Mem (produced r) log)

stamped-Delivered :
    (log : List Produced) (rows : List OutboxRow)
    → Logged log rows
    → where_unpublished rows ≡ []
    → Delivered log rows
unfolding where_unpublished
stamped-Delivered log [] l e = tt
stamped-Delivered log (r ∷ rows) l e = ground (arith, l.0, stamped-Delivered log rows l.1)

same-Delivered :
    (log : List Produced) (rows others : List OutboxRow)
    → contents rows ≡ contents others
    → Delivered log rows
    → Delivered log others
same-Delivered log [] [] e d = tt
same-Delivered log [] (q ∷ others) e d = cc
same-Delivered log (r ∷ rows) [] e d = cc
same-Delivered log (r ∷ rows) (q ∷ others) e d =
    (ground (arith, d.0), same-Delivered log rows others (ground arith) d.1)

-- The errors of a pass do not stop the poller: behind any ticks with any failures, ticks in which every call succeeds, one for each 100 rows that were unpublished at
-- the start, leave no row unpublished and append to the broker's log exactly the rows that the failing ticks left unpublished, once each and in the order in which they were
-- written; the broker then holds the record of every row, and the rows are those of the start up to their stamps.
pub run_delivers :
    (bad good : List PollEnv) (s : Relay) (lo hi : ℕ)
    → All Healthy good
    → Between lo hi s.db.outbox
    → Logged s.log s.db.outbox
    → length (pending s) ≤ length good * limit
    → Drained (run bad s).1 (run (bad ++ good) s).1
      × Delivered (run (bad ++ good) s).1.log s.db.outbox
      × Relays s (run (bad ++ good) s).1
run_delivers bad good s lo hi h b l n =
    let (drained, k) = ticks bad good lo hi s s h n (Kept-refl lo hi s b l) in
    (
      drained,
      same-Delivered (run (bad ++ good) s).1.log (run (bad ++ good) s).1.db.outbox s.db.outbox
          k.relays.kept
          (stamped-Delivered (run (bad ++ good) s).1.log (run (bad ++ good) s).1.db.outbox k.logged
            drained.0),
      k.relays,
    )
