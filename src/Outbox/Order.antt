-- ===== src/Outbox/Order.antt =====
-- The identities of the outbox rise, so that `ORDER BY id` is the order of insertion.
use maritime_test_lab.Prelude.{ℕ, suc, ◌≤◌, ◌<◌, List, [], ◌∷◌, ◌++◌, ◌≡◌, refl, arith, ap}
use maritime_test_lab.Repository.{OutboxRow}
use maritime_test_lab.Outbox.{where_unpublished, order_by_id, insert_by_id, mark_published, take}

-- the ids rise strictly from `lo` on, and stay below `hi`
abbrev pub Between : ℕ → ℕ → List OutboxRow → Type 0
Between lo hi [] = lo ≤ hi
Between lo hi (r ∷ rows) = (lo ≤ r.id) × Between (suc r.id) hi rows

pub Between-le : (lo hi : ℕ) (rows : List OutboxRow) → Between lo hi rows → lo ≤ hi
Between-le lo hi [] b = b
Between-le lo hi (r ∷ rows) b = omega (arith, Between-le (suc r.id) hi rows b.1)

pub Between-append :
    (lo hi : ℕ) (rows : List OutboxRow) (r : OutboxRow)
    → Between lo hi rows
    → r.id ≡ hi
    → Between lo (suc hi) (rows ++ r ∷ [])
Between-append lo hi [] r b e = omega arith
Between-append lo hi (q ∷ rows) r b e = (b.0, Between-append (suc q.id) hi rows r b.1 e)

pub Between-mono :
    (lo hi hi' : ℕ) (rows : List OutboxRow) → hi ≤ hi' → Between lo hi rows → Between lo hi' rows
Between-mono lo hi hi' [] h b = omega arith
Between-mono lo hi hi' (r ∷ rows) h b = (b.0, Between-mono (suc r.id) hi hi' rows h b.1)

pub Between-weaken :
    (lo lo' hi : ℕ) (rows : List OutboxRow) → lo ≤ lo' → Between lo' hi rows → Between lo hi rows
Between-weaken lo lo' hi [] h b = omega arith
Between-weaken lo lo' hi (r ∷ rows) h b = (omega arith, b.1)

pub Between-mark_published :
    (now id lo hi : ℕ) (rows : List OutboxRow)
    → Between lo hi rows
    → Between lo hi (mark_published now id rows)
unfolding mark_published
Between-mark_published now id lo hi [] b = b
Between-mark_published now id lo hi (r ∷ rows) b =
    ground (arith, Between-mark_published now id (suc r.id) hi rows b.1)

pub Between-where_unpublished :
    (lo hi : ℕ) (rows : List OutboxRow)
    → Between lo hi rows
    → Between lo hi (where_unpublished rows)
unfolding where_unpublished
Between-where_unpublished lo hi [] b = b
Between-where_unpublished lo hi (r ∷ rows) b = ground (
  arith,
  Between-where_unpublished (suc r.id) hi rows b.1,
  Between-weaken lo (suc r.id) hi (where_unpublished rows),
)

order_by_id_id : (lo hi : ℕ) (rows : List OutboxRow) → Between lo hi rows → order_by_id rows ≡ rows
unfolding order_by_id
order_by_id_id lo hi [] b = refl
order_by_id_id lo hi (r ∷ rows) b = rw (order_by_id_id (suc r.id) hi rows b.1) (first rows b.1)
  where
    first : (rows : List OutboxRow) → Between (suc r.id) hi rows → insert_by_id r rows ≡ r ∷ rows
    first [] b = refl
    first (q ∷ rows) b = ground arith

-- The batch is the oldest unpublished rows, in the order in which they were written.
pub batch_oldest :
    (lo hi n : ℕ) (rows : List OutboxRow)
    → Between lo hi rows
    → take n (order_by_id (where_unpublished rows)) ≡ take n (where_unpublished rows)
batch_oldest lo hi n rows b =
    ap (take n)
      (order_by_id_id lo hi (where_unpublished rows) (Between-where_unpublished lo hi rows b))

mark_below :
    (now id lo hi : ℕ) (rows : List OutboxRow)
    → Between lo hi rows
    → id < lo
    → mark_published now id rows ≡ rows
unfolding mark_published
mark_below now id lo hi [] b h = refl
mark_below now id lo hi (r ∷ rows) b h = ground (arith, mark_below now id (suc r.id) hi rows b.1)

-- Marking the oldest unpublished row takes just that row off the unpublished ones.
pub mark_oldest :
    (now lo hi : ℕ) (rows rest : List OutboxRow) (r : OutboxRow)
    → Between lo hi rows
    → where_unpublished rows ≡ r ∷ rest
    → where_unpublished (mark_published now r.id rows) ≡ rest
unfolding where_unpublished mark_published
mark_oldest now lo hi [] rest r b e = absurd (cc)
mark_oldest now lo hi (q ∷ rows) rest r b e = ground (
  arith,
  mark_oldest now (suc q.id) hi rows rest r b.1,
  mark_below now q.id (suc q.id) hi rows b.1,
)
