-- ===== src/Onboard/Interleaving/Moves.antt =====
-- What each turn does to the invariant.
use mathlib.Core.List.{Mem, mem-cons_self, mem-cons_of_mem}
use maritime_test_lab.Prelude.{
  ℕ, suc, String, Option, none, some, [], ◌∷◌, ◌≡◌, refl, arith, sym, ap, ◌∙◌, subst, eq_iff,
  str_eq, Bool-cases, Option-cases, inl, inr, All, All-map, if◌then◌else◌,
}
use maritime_test_lab.Prelude.Int.{◌≤ℤ◌}
use maritime_test_lab.Onboard.Operation.{Operation}
use maritime_test_lab.Onboard.Queue.{
  Queue, find, put, remove, sort, Distinct, find-put, put-Distinct, find-remove, remove-Distinct,
  find-sort, sort-Distinct, found-All, find-id,
}
use maritime_test_lab.Onboard.Store
use maritime_test_lab.Onboard.Store.{
  Store, Codec, Disk, append, ack, pending, compact, renamed, lines_of, file_error,
}
use maritime_test_lab.Onboard.Syncer.{coalesce}
use maritime_test_lab.Onboard.Syncer.Laws.{merged, merged-id, coalesce-find}
use maritime_test_lab.Onboard.Interleaving.{
  SyncAt, EditAt, resting, sending, acking, ready, appending, in_flight, after_ack,
}
use maritime_test_lab.Onboard.Interleaving.Invariant.{Covered, Stands, Edited, Tidy}

pub ack-ops :
    (codec : Codec) (disk : Disk) (id : String) (s : Store)
    → (ack codec disk id s).1.ops ≡ remove id s.ops
unfolding ack compact renamed
ack-ops codec disk id s = ground arith

pub append-ops :
    (codec : Codec) (disk : Disk) (op : Operation) (s : Store)
    → (append codec disk op s).1.ops ≡ put op s.ops
unfolding append
append-ops codec disk op s = elim (Option-cases (codec.marshal op)) [
  | inl e ↦ ground arith
  | inr (line, e) ↦ ground arith
]

more_acked :
    (ops acked : Queue) (op e : Operation) → Covered ops acked e → Covered ops (op ∷ acked) e
more_acked ops acked op e (inl p) = inl p
more_acked ops acked op e (inr (a, m, n)) = inr (a, mem-cons_of_mem op m, n)

module _ (ops : Queue) (edit : EditAt) (acked enqueued : Queue) where
  pub returned-Tidy :
      (rest : Queue) (n : ℕ)
      → Tidy ops (sending rest n) edit acked enqueued
      → Tidy ops resting edit acked enqueued
  returned-Tidy rest n t = record {
    distinct = t.distinct;
    apart = tt;
    flying = tt;
    accepted = tt;
    edited = t.edited;
    covered = t.covered;
  }

  pub after_ack-Tidy :
      (e : Option Store.Error) (rest : Queue) (n : ℕ)
      → Tidy ops (sending rest (suc n)) edit acked enqueued
      → Tidy ops (after_ack e rest n) edit acked enqueued
  after_ack-Tidy none rest n t = t
  after_ack-Tidy (some e) rest n t = returned-Tidy rest (suc n) t

  pub refused-Tidy :
      (op : Operation) (rest : Queue) (n : ℕ)
      → Tidy ops (sending (op ∷ rest) n) edit acked enqueued
      → Tidy ops (sending rest n) edit acked enqueued
  refused-Tidy op rest n t = record {
    distinct = t.distinct;
    apart = t.apart.1;
    flying = t.flying.1;
    accepted = tt;
    edited = t.edited;
    covered = t.covered;
  }

  pub accepted-Tidy :
      (op : Operation) (rest : Queue) (n : ℕ)
      → Tidy ops (sending (op ∷ rest) n) edit acked enqueued
      → Tidy ops (acking op rest n) edit (op ∷ acked) enqueued
  accepted-Tidy op rest n t = record {
    distinct = t.distinct;
    apart = t.apart;
    flying = t.flying;
    accepted = mem-cons_self;
    edited = t.edited;
    covered =
        All-map (Covered ops acked) (Covered ops (op ∷ acked)) enqueued (more_acked ops acked op)
          t.covered;
  }

pub snapshot-Tidy :
    (ops : Queue) (edit : EditAt) (acked enqueued : Queue)
    → Tidy ops resting edit acked enqueued
    → Tidy ops (sending (sort ops) 0) edit acked enqueued
snapshot-Tidy ops edit acked enqueued t = record {
  distinct = t.distinct;
  apart = sort-Distinct ops t.distinct;
  flying = found-All (Stands ops) (sort ops) (sort-Distinct ops t.distinct) (λ j o e.
      let found : find j ops ≡ some o = sym (find-sort ops t.distinct j) ∙ e in
      subst (λ k. find k ops ≡ some o) (sym (find-id j ops o found)) found);
  accepted = tt;
  edited = t.edited;
  covered = t.covered;
}

acked_covers :
    (ops acked : Queue) (op e : Operation)
    → Distinct ops
    → Stands ops op
    → Mem op acked
    → Covered ops acked e
    → Covered (remove op.client_request_id ops) acked e
acked_covers ops acked op e d stands m (inr c) = inr c
acked_covers ops acked op e d stands m (inl (p, f, v)) =
    elim (Bool-cases (str_eq op.client_request_id e.client_request_id)) [
      | inl same ↦
          let k : op.client_request_id ≡ e.client_request_id =
            ground (arith, eq_iff op.client_request_id e.client_request_id) in
          let q : some op ≡ some p = sym stands ∙ ap (λ id. find id ops) k ∙ f in
          inr (op, m, (k, ground arith))
      | inr other ↦
          inl (p, find-remove op.client_request_id e.client_request_id ops d ∙ rw other f, v)
    ]

removed_flying :
    (ops : Queue) (op : Operation) (rest : Queue)
    → Distinct ops
    → find op.client_request_id rest ≡ none
    → All (Stands ops) rest
    → All (Stands (remove op.client_request_id ops)) rest
unfolding find
removed_flying ops op [] d apart flying = tt
removed_flying ops op (o ∷ rest) d apart (f, flying) = (
  find-remove op.client_request_id o.client_request_id ops d
      ∙ ground (
        arith,
        eq_iff op.client_request_id o.client_request_id,
        eq_iff o.client_request_id op.client_request_id,
      ),
  removed_flying ops op rest d (ground arith) flying,
)

removed_edit :
    (ops : Queue) (id : String) (edit : EditAt)
    → Distinct ops
    → Edited edit ops
    → Edited edit (remove id ops)
removed_edit ops id ready d e = tt
removed_edit ops id (appending given best) d (newer, top) = (
  newer,
  λ p f.
      let g : (if str_eq id best.client_request_id then none else find best.client_request_id ops)
          ≡ some p =
        sym (find-remove id best.client_request_id ops d) ∙ f in
      top p (ground arith),
)

pub removed-Tidy :
    (ops : Queue) (op : Operation) (rest : Queue) (n k : ℕ) (edit : EditAt) (acked enqueued : Queue)
    → Tidy ops (acking op rest n) edit acked enqueued
    → Tidy (remove op.client_request_id ops) (sending rest k) edit acked enqueued
removed-Tidy ops op rest n k edit acked enqueued t = record {
  distinct = remove-Distinct op.client_request_id ops t.distinct;
  apart = t.apart.1;
  flying = removed_flying ops op rest t.distinct t.apart.0 t.flying.1;
  accepted = tt;
  edited = removed_edit ops op.client_request_id edit t.distinct t.edited;
  covered =
      All-map (Covered ops acked) (Covered (remove op.client_request_id ops) acked) enqueued
        (λ e c. acked_covers ops acked op e t.distinct t.flying.0 t.accepted c) t.covered;
}

pub merged_newer :
    (o : Option Operation) (op : Operation)
    → (op.version ≤ℤ (merged o op).version)
      × ((p : Operation) → o ≡ some p → p.version ≤ℤ (merged o op).version)
merged_newer none op = (omega arith, λ p e. cc)
merged_newer (some x) op = (ground arith, λ p e. ground arith)

looked_edit :
    (ops : Queue) (op best : Operation)
    → best ≡ merged (find op.client_request_id ops) op
    → Edited (appending op best) ops
looked_edit ops op best e =
    let (above, top) = merged_newer (find op.client_request_id ops) op in
    let id : best.client_request_id ≡ op.client_request_id =
      ap (λ o. o.client_request_id) e ∙ merged-id ops op in
    (
      (id, subst (λ o. op.version ≤ℤ o.version) (sym e) above),
      λ p f.
          subst (λ o. p.version ≤ℤ o.version) (sym e) (top p (ap (λ i. find i ops) (sym id) ∙ f)),
    )

pub looked-Tidy :
    (ops : Queue) (at : SyncAt) (op : Operation) (acked enqueued : Queue)
    → Tidy ops at ready acked enqueued
    → Tidy ops at (appending op (coalesce (sort ops) op)) acked enqueued
looked-Tidy ops at op acked enqueued t = record {
  distinct = t.distinct;
  apart = t.apart;
  flying = t.flying;
  accepted = t.accepted;
  edited = looked_edit ops op (coalesce (sort ops) op) (
      coalesce-find (sort ops) op
      ∙ ap (λ o. merged o op) (find-sort ops t.distinct op.client_request_id));
  covered = t.covered;
}

appended_flying :
    (ops : Queue) (best : Operation) (flying : Queue)
    → find best.client_request_id flying ≡ none
    → All (Stands ops) flying
    → All (Stands (put best ops)) flying
unfolding find
appended_flying ops best [] apart h = tt
appended_flying ops best (o ∷ flying) apart (f, h) = (
  find-put o.client_request_id best ops
      ∙ ground (
        arith,
        eq_iff best.client_request_id o.client_request_id,
        eq_iff o.client_request_id best.client_request_id,
      ),
  appended_flying ops best flying (ground arith) h,
)

appended_covers :
    (ops acked : Queue) (best e : Operation)
    → ((p : Operation) → find best.client_request_id ops ≡ some p → p.version ≤ℤ best.version)
    → Covered ops acked e
    → Covered (put best ops) acked e
appended_covers ops acked best e top (inr c) = inr c
appended_covers ops acked best e top (inl (p, f, v)) =
    elim (Bool-cases (str_eq best.client_request_id e.client_request_id)) [
      | inl same ↦
          let k : best.client_request_id ≡ e.client_request_id =
            ground (arith, eq_iff best.client_request_id e.client_request_id) in
          inl (
            best,
            find-put e.client_request_id best ops ∙ rw same refl,
            omega (arith, v, top p (ap (λ i. find i ops) k ∙ f)),
          )
      | inr other ↦ inl (p, find-put e.client_request_id best ops ∙ rw other f, v)
    ]

pub appended-Tidy :
    (ops : Queue) (at : SyncAt) (given best : Operation) (acked enqueued : Queue)
    → Tidy ops at (appending given best) acked enqueued
    → find best.client_request_id (in_flight at) ≡ none
    → Tidy (put best ops) at ready acked (given ∷ enqueued)
appended-Tidy ops at given best acked enqueued t apart = record {
  distinct = put-Distinct best ops t.distinct;
  apart = t.apart;
  flying = appended_flying ops best (in_flight at) apart t.flying;
  accepted = t.accepted;
  edited = tt;
  covered = (
    inl (
      best,
      find-put given.client_request_id best ops
          ∙ ground (arith, t.edited.0.0, eq_iff best.client_request_id given.client_request_id),
      t.edited.0.1,
    ),
    All-map (Covered ops acked) (Covered (put best ops) acked) enqueued
        (λ e c. appended_covers ops acked best e t.edited.1 c) t.covered,
  );
}
