-- ===== src/System/Sources.antt =====
-- What a pass of the poller puts on the broker, and what the statements leave of a property of each row.
use maritime_test_lab.Prelude.{
  ℕ, zero, suc, Bool, true, Option, none, some, List, [], ◌∷◌, ◌≡◌, Bool-cases, inl, inr, leb, ◌==◌,
  All, All-append,
}
use maritime_test_lab.Kafka.{Produced, Ack, acked, refused, answer_lost}
use maritime_test_lab.Voyage.{Error}
use maritime_test_lab.Repository.{Row, OutboxRow, Commit, committed, rolled_back, update_where}
use maritime_test_lab.Outbox.Order.{Between, Between-mark_published}
use maritime_test_lab.Outbox.{
  PollEnv, Relay, produced, flush, publish, publish_all, settle, mark_published, unpublished,
  where_unpublished, order_by_id, insert_by_id, take, limit, is_null, unless,
}

pub All-update_where {κ} :
    (p : Row → Type κ) (test : Row → Bool) (change : Row → Row) (rows : List Row)
    → ((r : Row) → test r ≡ true → p r → p (change r))
    → All p rows
    → All p (update_where test change rows)
unfolding update_where
All-update_where p test change [] h a = tt
All-update_where p test change (r ∷ rows) h a = elim (Bool-cases (test r)) [
  | inl e ↦ rw e (h r e a.0, All-update_where p test change rows h a.1)
  | inr e ↦ rw e (a.0, All-update_where p test change rows h a.1)
]

-- with a property that may be used of the row before
pub All-update_second {κ μ} :
    (q : Row → Type μ) (p : Row → Type κ) (test : Row → Bool) (change : Row → Row) (rows : List Row)
    → ((r : Row) → test r ≡ true → q r → p r → p (change r))
    → All q rows
    → All p rows
    → All p (update_where test change rows)
unfolding update_where
All-update_second q p test change [] h b a = tt
All-update_second q p test change (r ∷ rows) h b a = elim (Bool-cases (test r)) [
  | inl e ↦ rw e (h r e b.0 a.0, All-update_second q p test change rows h b.1 a.1)
  | inr e ↦ rw e (a.0, All-update_second q p test change rows h b.1 a.1)
]

-- a property of what a row says, whatever its stamp
module _ (p : Produced → Type 0) (kept : List Row) where
  abbrev pub Says : OutboxRow → Type 0
  Says r = p (produced r)

  All-mark_published :
      (now id : ℕ) (rows : List OutboxRow) → All Says rows → All Says (mark_published now id rows)
  unfolding mark_published
  All-mark_published now id [] a = tt
  All-mark_published now id (r ∷ rows) a = elim (Bool-cases (r.id == id)) [
    | inl e ↦ rw e (a.0, All-mark_published now id rows a.1)
    | inr e ↦ rw e (a.0, All-mark_published now id rows a.1)
  ]

  All-where_unpublished :
      (rows : List OutboxRow) → All Says rows → All Says (where_unpublished rows)
  unfolding where_unpublished
  All-where_unpublished [] a = tt
  All-where_unpublished (r ∷ rows) a = elim (Bool-cases (is_null r.published_at)) [
    | inl e ↦ rw e (a.0, All-where_unpublished rows a.1)
    | inr e ↦ rw e (All-where_unpublished rows a.1)
  ]

  All-insert_by_id :
      (r : OutboxRow) (rows : List OutboxRow)
      → Says r
      → All Says rows
      → All Says (insert_by_id r rows)
  unfolding insert_by_id
  All-insert_by_id r [] h a = (h, tt)
  All-insert_by_id r (q ∷ rows) h a = elim (Bool-cases (leb r.id q.id)) [
    | inl e ↦ rw (e, insert_by_id) (h, a)
    | inr e ↦ rw (e, insert_by_id) (a.0, All-insert_by_id r rows h a.1)
  ]

  All-order_by_id : (rows : List OutboxRow) → All Says rows → All Says (order_by_id rows)
  unfolding order_by_id
  All-order_by_id [] a = tt
  All-order_by_id (r ∷ rows) a =
      All-insert_by_id r (order_by_id rows) a.0 (All-order_by_id rows a.1)

  All-take : (n : ℕ) (rows : List OutboxRow) → All Says rows → All Says (take n rows)
  unfolding take
  All-take zero rows a = tt
  All-take (suc n) [] a = tt
  All-take (suc n) (r ∷ rows) a = (a.0, All-take n rows a.1)

  -- the property holds of what the outbox says and of what the broker holds, and the voyages are those
  abbrev pub Fair : Relay → Type 0
  Fair s = All Says s.db.outbox × All p s.log × (s.db.voyages ≡ kept)

  settle-Fair :
      (a : Ack) (stamp : Commit) (now : ℕ) (row : OutboxRow) (s : Relay)
      → Says row
      → Fair s
      → Fair (settle a stamp now row s).1
  unfolding settle
  settle-Fair acked rolled_back now row s h (o, l, k) =
      (o, All-append p s.log (produced row ∷ []) l (h, tt), k)
  settle-Fair acked Commit.answer_lost now row s h (o, l, k) = (
    All-mark_published now row.id s.db.outbox o,
    All-append p s.log (produced row ∷ []) l (h, tt),
    k,
  )
  settle-Fair acked committed now row s h (o, l, k) = (
    All-mark_published now row.id s.db.outbox o,
    All-append p s.log (produced row ∷ []) l (h, tt),
    k,
  )
  settle-Fair refused stamp now row s h f = f
  settle-Fair answer_lost stamp now row s h (o, l, k) =
      (o, All-append p s.log (produced row ∷ []) l (h, tt), k)

  unless-Fair :
      (r : Option Error × Relay) (f : Relay → Option Error × Relay)
      → Fair r.1
      → ((t : Relay) → Fair t → Fair (f t).1)
      → Fair (unless r f).1
  unless-Fair (some e, t) f h k = h
  unless-Fair (none, t) f h k = k t h

  publish_all-Fair :
      (env : PollEnv) (batch : List OutboxRow) (s : Relay)
      → All Says batch
      → Fair s
      → Fair (publish_all env batch s).1
  unfolding publish_all publish
  publish_all-Fair env [] s b f = f
  publish_all-Fair env (row ∷ batch) s b f =
      unless-Fair (publish env row s) (publish_all env batch)
        (settle-Fair (env.ack row.id) (env.mark row.id) env.now row s b.0 f)
        (λ t k. publish_all-Fair env batch t b.1 k)

  -- In any environment, a pass of the poller puts nothing on the broker but records of rows of the outbox: what holds of all of
  -- them and of all that the broker holds goes on to hold. It changes no voyage.
  pub flush-Fair : (env : PollEnv) (s : Relay) → Fair s → Fair (flush env s).1
  unfolding flush unpublished publish_all
  flush-Fair env s f = elim (Bool-cases env.query_fails) [
    | inl e ↦ rw (e, flush) f
    | inr e ↦
        rw (e, flush)
          (publish_all-Fair env (unpublished s.db.outbox) s
            (All-take limit (order_by_id (where_unpublished s.db.outbox)) (
              All-order_by_id (where_unpublished s.db.outbox)
                (All-where_unpublished s.db.outbox f.0)))
            f)
  ]

-- the ids of the outbox lie between two bounds, and the sequence stands where it stood
abbrev pub Steady : ℕ → ℕ → Relay → Type 0
Steady hi n s = Between 1 hi s.db.outbox × (s.db.next_id ≡ n)

settle-Steady :
    (hi n : ℕ) (a : Ack) (stamp : Commit) (now : ℕ) (row : OutboxRow) (s : Relay)
    → Steady hi n s
    → Steady hi n (settle a stamp now row s).1
unfolding settle
settle-Steady hi n acked rolled_back now row s h = h
settle-Steady hi n acked Commit.answer_lost now row s h =
    (Between-mark_published now row.id 1 hi s.db.outbox h.0, h.1)
settle-Steady hi n acked committed now row s h =
    (Between-mark_published now row.id 1 hi s.db.outbox h.0, h.1)
settle-Steady hi n refused stamp now row s h = h
settle-Steady hi n answer_lost stamp now row s h = h

unless-Steady :
    (hi n : ℕ) (r : Option Error × Relay) (f : Relay → Option Error × Relay)
    → Steady hi n r.1
    → ((t : Relay) → Steady hi n t → Steady hi n (f t).1)
    → Steady hi n (unless r f).1
unless-Steady hi n (some e, t) f h k = h
unless-Steady hi n (none, t) f h k = k t h

publish_all-Steady :
    (hi n : ℕ) (env : PollEnv) (batch : List OutboxRow) (s : Relay)
    → Steady hi n s
    → Steady hi n (publish_all env batch s).1
unfolding publish_all publish
publish_all-Steady hi n env [] s h = h
publish_all-Steady hi n env (row ∷ batch) s h =
    unless-Steady hi n (publish env row s) (publish_all env batch)
      (settle-Steady hi n (env.ack row.id) (env.mark row.id) env.now row s h)
      (λ t k. publish_all-Steady hi n env batch t k)

pub flush-Steady :
    (hi n : ℕ) (env : PollEnv) (s : Relay) → Steady hi n s → Steady hi n (flush env s).1
unfolding flush publish_all
flush-Steady hi n env s h = elim (Bool-cases env.query_fails) [
  | inl e ↦ rw (e, flush) h
  | inr e ↦ rw (e, flush) (publish_all-Steady hi n env (unpublished s.db.outbox) s h)
]
