-- ===== src/Onboard/Syncer/Laws.antt =====
-- Coalescing, and what a round of sync does to the queue.
use maritime_test_lab.Prelude.{
  ℕ, suc, String, true, false, All, subst, ◌≢◌, Option, none, some, [], ◌∷◌, if◌then◌else◌, str_eq,
  ◌+◌, ◌≡◌, refl, arith, eq_iff, sym, ap, ◌∙◌, Option-cases, inl, inr, eq_refl,
}
use maritime_test_lab.Onboard.Operation.{Operation, higher_version_wins, kind_create, kind_update}
use maritime_test_lab.Onboard.Queue.{
  Queue, find, find-id, found-All, Distinct, find-sort, sort, sort-Distinct,
}
use maritime_test_lab.Onboard.Store
use maritime_test_lab.Onboard.Store.{Store, Codec, Disk, append, ack, pending}
use maritime_test_lab.Onboard.Store.Replay.{Prints}
use maritime_test_lab.Onboard.Store.Durable.{Durable, Sound, append-Durable, ack-Durable}
use maritime_test_lab.Onboard.Syncer.{Syncer, coalesce, enqueue, sync_all, sync_once}
use maritime_test_lab.Prelude.Int.{ltb_ℤ}

-- what an operation becomes beside the one that is pending
abbrev pub merged : Option Operation → Operation → Operation
merged none op = op
merged (some existing) op = higher_version_wins existing op

pub coalesce-find :
    (ops : Queue) (op : Operation) → coalesce ops op ≡ merged (find op.client_request_id ops) op
unfolding coalesce find
coalesce-find [] op = refl
coalesce-find (o ∷ ops) op = ground (arith, coalesce-find ops op)

pub merged-id :
    (ops : Queue) (op : Operation)
    → (merged (find op.client_request_id ops) op).client_request_id ≡ op.client_request_id
merged-id ops op = elim (Option-cases (find op.client_request_id ops)) [
  | inl e ↦ rw e refl
  | inr (o, e) ↦ ground (arith, e, find-id op.client_request_id ops o e)
]

module _ (codec : Codec) where
  -- Enqueueing on a sound disk keeps the queue durable; the pending operation of the id becomes the one with the higher version of the two,
  -- the one that was there on a tie, and no other operation changes.
  pub enqueue-Durable :
      (disk : Disk) (op : Operation) (s : Syncer)
      → Sound disk
      → Durable codec s.store
      → Prints codec (merged (find op.client_request_id s.store.ops) op)
      → ((enqueue codec disk op s).0 ≡ none)
        × Durable codec (enqueue codec disk op s).1.store
        × ((j : String)
            → find j (pending (enqueue codec disk op s).1.store) ≡ (
                if str_eq op.client_request_id j
                then some (merged (find op.client_request_id s.store.ops) op)
                else find j (pending s.store)))
  unfolding enqueue
  enqueue-Durable disk op s sound d p =
      let (done, kept, finds) = append-Durable codec disk sound best s.store p d in
      rw (known) (
        done,
        kept,
        λ j.
            find-sort (append codec disk best s.store).1.ops kept.distinct j
            ∙ finds j
            ∙ rw (merged-id s.store.ops op, find-sort s.store.ops d.distinct j) refl,
      )
    where
      best : Operation
      best = merged (find op.client_request_id s.store.ops) op

      known : coalesce (sort s.store.ops) op ≡ best
      known =
          coalesce-find (sort s.store.ops) op
          ∙ ap (λ o. merged o op) (find-sort s.store.ops d.distinct op.client_request_id)

  only :
      (a b : Operation) (ops : Queue)
      → find a.client_request_id ops ≡ some b
      → find a.client_request_id ops ≡ some a
      → b ≡ a
  only a b ops e f = cc

  no_kind : ¬ (kind_update ≡ kind_create)
  no_kind h = let x : false ≡ true = (eq_iff kind_update kind_create).1 h in cc

  -- An update that is enqueued while another operation of its voyage, such as the creation, is pending, at a higher version than that, takes its place: the queue then holds the update,
  -- and every operation of the voyage that it holds is the update, so none would create the voyage; over a sound disk and a durable queue without the voyage, if both operations are written and read back.
  pub enqueue_loses_create :
      (disk disk' : Disk) (created updated : Operation) (s : Syncer)
      → Sound disk
      → Sound disk'
      → Durable codec s.store
      → Prints codec created
      → Prints codec updated
      → find created.client_request_id s.store.ops ≡ none
      → updated.client_request_id ≡ created.client_request_id
      → updated.kind ≡ kind_update
      → ltb_ℤ created.version updated.version ≡ true
      → let queue : Queue =
          pending (enqueue codec disk' updated (enqueue codec disk created s).1).1.store in
        (find updated.client_request_id queue ≡ some updated)
        × All
            (λ op.
              op.client_request_id ≡ updated.client_request_id
              → (op ≡ updated) × (op.kind ≢ kind_create))
            queue
  enqueue_loses_create disk disk' created updated s sound sound' d p p' fresh same kind newer =
      let (done, kept, finds) = enqueue-Durable disk created s sound d (rw fresh p) in
      let there : find updated.client_request_id mid.store.ops ≡ some created =
        ap (λ id. find id mid.store.ops) same
        ∙ sym (find-sort mid.store.ops kept.distinct created.client_request_id)
        ∙ finds created.client_request_id
        ∙ rw (eq_refl created.client_request_id, fresh) refl in
      let best : merged (find updated.client_request_id mid.store.ops) updated ≡ updated =
        rw there (ground (arith, newer)) in
      let (done', kept', finds') = enqueue-Durable disk' updated mid sound' kept (rw best p') in
      let there' : find updated.client_request_id (pending t.store) ≡ some updated =
        finds' updated.client_request_id ∙ rw (eq_refl updated.client_request_id) (ap some best) in
      (
        there',
        found-All
            (λ op.
              op.client_request_id ≡ updated.client_request_id
              → (op ≡ updated) × (op.kind ≢ kind_create))
            (pending t.store) (sort-Distinct t.store.ops kept'.distinct)
            (λ j op e at.
              let it : op ≡ updated =
                only updated op (pending t.store)
                  (subst (λ id. find id (pending t.store) ≡ some op)
                    (sym (find-id j (pending t.store) op e) ∙ at) e)
                  there' in
              (it, λ k. no_kind (sym kind ∙ sym (ap (λ o. o.kind) it) ∙ k))),
      )
    where
      mid : Syncer
      mid = (enqueue codec disk created s).1

      t : Syncer
      t = (enqueue codec disk' updated mid).1

  module _ (send : Operation → Option String) (now : Operation → ℕ) (disk : Operation → Disk)
      (sound : (op : Operation) → Sound (disk op)) where
    -- the operations that the server acknowledges, and those that it does not
    abbrev pub acked : Queue → ℕ
    acked [] = 0
    acked (op ∷ ops) = elim (send op) [ none ↦ suc (acked ops) | some text ↦ acked ops ]

    abbrev pub failures : Queue → ℕ
    failures [] = 0
    failures (op ∷ ops) = elim (send op) [ none ↦ failures ops | some text ↦ suc (failures ops) ]

    -- what is left of an entry that was attempted
    abbrev pub left : Option Operation → Option Operation → Option Operation
    left none before = before
    left (some op) before = elim (send op) [ none ↦ none | some text ↦ before ]

    pub record Synced (ops : Queue) (synced : ℕ) (s t : Syncer) (got : ℕ × Option Store.Error)
        : Type 0 where
      pub counted : got ≡ (synced + acked ops, none)
      pub durable : Durable codec t.store
      pub retries : t.retry_count ≡ s.retry_count + failures ops
      pub entries : (j : String) → find j t.store.ops ≡ left (find j ops) (find j s.store.ops)

    sync_all-Synced :
        (ops : Queue) (synced : ℕ) (s : Syncer)
        → Distinct ops
        → Durable codec s.store
        → Synced ops synced s
            (sync_all codec send now disk ops synced s).1
            (sync_all codec send now disk ops synced s).0
    unfolding sync_all find
    sync_all-Synced [] synced s a d = record {
      counted = ground arith;
      durable = d;
      retries = ground arith;
      entries = λ j. refl;
    }
    sync_all-Synced (op ∷ ops) synced s (f, a) d = elim (Option-cases (send op)) [
      | inr (text, e) ↦
          let rest =
            sync_all-Synced ops synced
              (record s {
                retry_count = suc s.retry_count;
                last_attempt = now op;
                last_error = text;
              })
              a d in
          rw (e, sync_all)
            (record {
              counted = rest.counted ∙ rw (e, acked) refl;
              durable = rest.durable;
              retries = rest.retries ∙ rw (e, failures) (omega arith);
              entries = λ j. rest.entries j ∙ untouched j text e;
            })
      | inl e ↦
          let (done, kept, finds) =
            ack-Durable codec (disk op) (sound op) op.client_request_id s.store d in
          let rest =
            sync_all-Synced ops (suc synced)
              (record s {
                store = (ack codec (disk op) op.client_request_id s.store).1;
                last_attempt = now op;
              })
              a kept in
          rw (e, sync_all, done)
            (record {
              counted = rest.counted ∙ ground arith;
              durable = rest.durable;
              retries = rest.retries ∙ rw (e, failures) refl;
              entries = λ j. rest.entries j ∙ ap (left (find j ops)) (finds j) ∙ removed j e;
            })
    ]
      where
        untouched :
            (j : String)
            → (text : String) → send op ≡ some text
            → left (find j ops) (find j s.store.ops)
              ≡ left
                  (if str_eq op.client_request_id j then some op else find j ops)
                  (find j s.store.ops)
        untouched j text e = ground (arith, f, eq_iff op.client_request_id j)

        removed :
            (j : String)
            → send op ≡ none
            → left (find j ops) (if str_eq op.client_request_id j then none else find j s.store.ops)
              ≡ left
                  (if str_eq op.client_request_id j then some op else find j ops)
                  (find j s.store.ops)
        removed j e = ground (arith, f, eq_iff op.client_request_id j)

    -- One round over a sound disk: it returns the number of operations that the server acknowledged and no error, keeps the queue
    -- durable, removes exactly the acknowledged operations from it, and counts every other as a retry.
    pub sync_once-Synced :
        (s : Syncer)
        → Durable codec s.store
        → Synced
            (pending s.store)
            0
            s
            (sync_once codec send now disk s).1
            (sync_once codec send now disk s).0
    unfolding sync_once
    sync_once-Synced s d =
        sync_all-Synced (sort s.store.ops) 0 s (sort-Distinct s.store.ops d.distinct) d
