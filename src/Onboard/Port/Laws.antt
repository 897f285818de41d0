-- ===== src/Onboard/Port/Laws.antt =====
-- What Enqueue does over any store that keeps the laws of the port.
use mathlib.Core.List.{
  Mem, Mem-prop, mem-cons_self, mem-cons_of_mem, eq-or-mem_of_mem-cons, not-mem-nil,
}
use mathlib.Core.Logic.Or
use maritime_test_lab.Prelude.{
  String, Option, none, some, List, [], ◌∷◌, ◌≡◌, refl, arith, sym, ap, ◌∙◌, subst, if◌then◌else◌,
  str_eq, eq_iff, eq_refl, Bool-cases, inl, inr, ◌⊎◌, All,
}
use maritime_test_lab.Prelude.Int.{◌≤ℤ◌, ltb_ℤ}
use maritime_test_lab.Onboard.Operation.{Operation}
use maritime_test_lab.Onboard.Syncer.{coalesce}
use maritime_test_lab.Onboard.Syncer.Laws.{merged, merged-id, coalesce-find}
use maritime_test_lab.Onboard.Interleaving.Moves.{merged_newer}
use maritime_test_lab.Onboard.Port.{Port, Lawful, enqueue, enqueue_all}

some_injective : {a b : Operation} → some a ≡ some b → a ≡ b
some_injective e = cc

mem-singleton_cons :
    (op : Operation) (ops : List Operation) (p : Operation) → Mem p (op ∷ []) → Mem p (op ∷ ops)
mem-singleton_cons op ops p m =
    Or.elim Mem-prop (eq-or-mem_of_mem-cons m)
      (λ e. subst (λ o. Mem o (op ∷ ops)) (sym e) mem-cons_self) (λ k. absurd (not-mem-nil k))

merged-either :
    (o : Option Operation) (op : Operation) → (merged o op ≡ op) ⊎ (o ≡ some (merged o op))
merged-either none op = inl refl
merged-either (some x) op = elim (Bool-cases (ltb_ℤ x.version op.version)) [
  | inl e ↦ inl (ground arith)
  | inr e ↦ inr (ground arith)
]

module _ {E S : Type 0} (port : Port E S) (laws : Lawful port) where
  open laws use {IsValid, IsWritable, holds}

  pub enqueue-holds :
      (op : Operation) (s : S)
      → IsValid s
      → IsWritable op
      → ((enqueue port op s).0 ≡ none)
        × IsValid (enqueue port op s).1
        × ((j : String)
            → holds (enqueue port op s).1 j ≡ (
                if str_eq op.client_request_id j
                then some (merged (holds s op.client_request_id) op)
                else holds s j))
  unfolding enqueue
  enqueue-holds op s valid writable =
      let (ops, read, distinct, same) = laws.reads s valid in
      let known : coalesce ops op ≡ best =
        coalesce-find ops op ∙ ap (λ o. merged o op) (same op.client_request_id) in
      let id : best.client_request_id ≡ op.client_request_id =
        ap (λ o. (merged o op).client_request_id) (sym (same op.client_request_id))
        ∙ merged-id ops op in
      let run : enqueue port op s ≡ port.append best s =
        rw (read, enqueue) (ap (λ o. port.append o s) known) in
      let (done, kept, after) =
        laws.appends best s valid
          (best-IsWritable (merged-either (holds s op.client_request_id) op)) in
      (
        ap (λ p. p.0) run ∙ done,
        subst (λ p. IsValid p.1) (sym run) kept,
        λ j.
            ap (λ p. holds p.1 j) run
            ∙ after j
            ∙ ap (λ i. if str_eq i j then some best else holds s j) id,
      )
    where
      best : Operation
      best = merged (holds s op.client_request_id) op

      best-IsWritable : (best ≡ op) ⊎ (holds s op.client_request_id ≡ some best) → IsWritable best
      best-IsWritable (inl e) = subst IsWritable (sym e) writable
      best-IsWritable (inr e) = laws.held s op.client_request_id best valid e

  -- an operation is held under its id, at its version or a higher one
  abbrev pub Kept : S → Operation → Type 0
  Kept s op = (p : Operation) × (holds s op.client_request_id ≡ some p) × (op.version ≤ℤ p.version)

  -- what is held was held before, or is one of the operations
  abbrev pub From : S → List Operation → S → Type 0
  From s ops t =
      (j : String) (p : Operation) → holds t j ≡ some p → (holds s j ≡ some p) ⊎ Mem p ops

  enqueue-Kept :
      (op o : Operation) (s : S)
      → IsValid s
      → IsWritable op
      → Kept s o
      → Kept (enqueue port op s).1 o
  enqueue-Kept op o s valid writable (p, f, v) =
      let (_, _, after) = enqueue-holds op s valid writable in
      elim (Bool-cases (str_eq op.client_request_id o.client_request_id)) [
        | inr other ↦ (p, after o.client_request_id ∙ rw other f, v)
        | inl same ↦
            let k : op.client_request_id ≡ o.client_request_id =
              ground (arith, eq_iff op.client_request_id o.client_request_id) in
            let (_, top) = merged_newer (holds s op.client_request_id) op in
            (
              merged (holds s op.client_request_id) op,
              after o.client_request_id ∙ rw same refl,
              omega (arith, v, top p (ap (holds s) k ∙ f)),
            )
      ]

  enqueued-Kept :
      (op : Operation) (s : S) → IsValid s → IsWritable op → Kept (enqueue port op s).1 op
  enqueued-Kept op s valid writable =
      let (_, _, after) = enqueue-holds op s valid writable in
      (
        merged (holds s op.client_request_id) op,
        after op.client_request_id ∙ rw (eq_refl op.client_request_id) refl,
        (merged_newer (holds s op.client_request_id) op).0,
      )

  enqueue-From :
      (op : Operation) (s : S) → IsValid s → IsWritable op → From s (op ∷ []) (enqueue port op s).1
  enqueue-From op s valid writable j p f =
      let (_, _, after) = enqueue-holds op s valid writable in
      elim (Bool-cases (str_eq op.client_request_id j)) [
        | inr other ↦ inl (sym (after j ∙ rw other refl) ∙ f)
        | inl same ↦
            let k : op.client_request_id ≡ j = ground (arith, eq_iff op.client_request_id j) in
            let found : some (merged (holds s op.client_request_id) op) ≡ some p =
              sym (after j ∙ rw same refl) ∙ f in
            elim (merged-either (holds s op.client_request_id) op) [
              | inl new ↦ inr (
                  subst (λ o. Mem o (op ∷ [])) (some_injective (sym (ap some new) ∙ found))
                    mem-cons_self)
              | inr old ↦ inl (ap (holds s) (sym k) ∙ old ∙ found)
            ]
      ]

  keeps_all :
      (ops : List Operation) (o : Operation) (s : S)
      → IsValid s
      → All IsWritable ops
      → Kept s o
      → Kept (enqueue_all port ops s) o
  unfolding enqueue_all
  keeps_all [] o s valid w k = k
  keeps_all (op ∷ ops) o s valid (w, ws) k =
      let (_, kept, _) = enqueue-holds op s valid w in
      keeps_all ops o (enqueue port op s).1 kept ws (enqueue-Kept op o s valid w k)

  -- Whatever is enqueued in whatever order over a store that keeps the laws of the port: each operation is held under its id at its version or a higher one, and what is
  -- held was held before or is one of the operations.
  pub enqueue_all-Kept :
      (ops : List Operation) (s : S)
      → IsValid s
      → All IsWritable ops
      → IsValid (enqueue_all port ops s)
        × All (Kept (enqueue_all port ops s)) ops
        × From s ops (enqueue_all port ops s)
  unfolding enqueue_all
  enqueue_all-Kept [] s valid w = (valid, tt, λ j p f. inl f)
  enqueue_all-Kept (op ∷ ops) s valid (w, ws) =
      let (_, now, _) = enqueue-holds op s valid w in
      let (end, kept, source) = enqueue_all-Kept ops (enqueue port op s).1 now ws in
      (
        end,
        (keeps_all ops op (enqueue port op s).1 now ws (enqueued-Kept op s valid w), kept),
        λ j p f. elim (source j p f) [
          | inr m ↦ inr (mem-cons_of_mem op m)
          | inl g ↦ elim (enqueue-From op s valid w j p g) [
            | inl h ↦ inl h
            | inr m ↦ inr (mem-singleton_cons op ops p m)
          ]
        ],
      )
