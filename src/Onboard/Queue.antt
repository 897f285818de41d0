-- ===== src/Onboard/Queue.antt =====
-- The map of pending operations of clients/onboard-sync/adapters/jsonlstore/store.go: Go's
-- `map[string]domain.Operation` as its entries, in any order, with `put` for an assignment and `remove` for `delete`.
use Prim.Native.String.{compare}
use maritime_test_lab.Prelude.{
  String, Bool, true, false, Option, none, some, List, [], ◌∷◌, if◌then◌else◌, str_eq, ◌≡◌, refl,
  arith, eq_iff, eq_refl, ◌∙◌, All,
}
use maritime_test_lab.Onboard.Operation.{Operation}
use Prim.Native.Nat.{Ordering}

abbrev pub Queue : Type 0
Queue = List Operation

unfoldable pub find : String → Queue → Option Operation
find id [] = none
find id (op ∷ ops) = if str_eq op.client_request_id id then some op else find id ops

unfoldable pub put : Operation → Queue → Queue
put op [] = op ∷ []
put op (o ∷ ops) =
    if str_eq o.client_request_id op.client_request_id then op ∷ ops else o ∷ put op ops

unfoldable pub remove : String → Queue → Queue
remove id [] = []
remove id (o ∷ ops) = if str_eq o.client_request_id id then ops else o ∷ remove id ops

-- `out[i].ClientRequestID < out[j].ClientRequestID`
abbrev pub precedes : Operation → Operation → Bool
precedes a b = elim (compare a.client_request_id b.client_request_id) [
  | Ordering.lt ↦ true
  | _ ↦ false
]

unfoldable pub insert : Operation → Queue → Queue
insert op [] = op ∷ []
insert op (o ∷ ops) = if precedes o op then o ∷ insert op ops else op ∷ o ∷ ops

-- `sort.Slice`, on operations whose ids differ
unfoldable pub sort : Queue → Queue
unfolding insert
sort [] = []
sort (op ∷ ops) = insert op (sort ops)

-- each id once
abbrev pub Distinct : Queue → Type 0
Distinct [] = Unit {0}
Distinct (op ∷ ops) = (find op.client_request_id ops ≡ none) × Distinct ops

pub find-put :
    (j : String) (op : Operation) (ops : Queue)
    → find j (put op ops) ≡ (if str_eq op.client_request_id j then some op else find j ops)
unfolding find put
find-put j op [] = refl
find-put j op (o ∷ ops) = ground (
  arith,
  find-put j op ops,
  eq_iff o.client_request_id op.client_request_id,
  eq_iff o.client_request_id j,
  eq_iff op.client_request_id j,
)

pub put-Distinct : (op : Operation) (ops : Queue) → Distinct ops → Distinct (put op ops)
unfolding find put
put-Distinct op [] d = (refl, tt)
put-Distinct op (o ∷ ops) (f, d) = ground (
  arith,
  put-Distinct op ops d,
  find-put o.client_request_id op ops,
  eq_iff o.client_request_id op.client_request_id,
  eq_iff op.client_request_id o.client_request_id,
)

pub find-remove :
    (id j : String) (ops : Queue)
    → Distinct ops
    → find j (remove id ops) ≡ (if str_eq id j then none else find j ops)
unfolding find remove
find-remove id j [] d = ground arith
find-remove id j (o ∷ ops) (f, d) = ground (
  arith,
  find-remove id j ops d,
  eq_iff o.client_request_id id,
  eq_iff o.client_request_id j,
  eq_iff id j,
)

pub remove-Distinct : (id : String) (ops : Queue) → Distinct ops → Distinct (remove id ops)
unfolding find remove
remove-Distinct id [] d = tt
remove-Distinct id (o ∷ ops) (f, d) = ground (
  arith,
  remove-Distinct id ops d,
  find-remove id o.client_request_id ops d,
  eq_iff o.client_request_id id,
)

pub find-insert :
    (j : String) (op : Operation) (ops : Queue)
    → find op.client_request_id ops ≡ none
    → find j (insert op ops) ≡ (if str_eq op.client_request_id j then some op else find j ops)
unfolding find insert
find-insert j op [] f = refl
find-insert j op (o ∷ ops) f = ground (
  arith,
  find-insert j op ops,
  eq_iff o.client_request_id op.client_request_id,
  eq_iff o.client_request_id j,
  eq_iff op.client_request_id j,
)

pub insert-Distinct :
    (op : Operation) (ops : Queue)
    → find op.client_request_id ops ≡ none
    → Distinct ops
    → Distinct (insert op ops)
unfolding find insert
insert-Distinct op [] f d = (refl, tt)
insert-Distinct op (o ∷ ops) f (g, d) = ground (
  arith,
  insert-Distinct op ops,
  find-insert o.client_request_id op ops,
  eq_iff o.client_request_id op.client_request_id,
  eq_iff op.client_request_id o.client_request_id,
)

pub find-sort : (ops : Queue) → Distinct ops → (j : String) → find j (sort ops) ≡ find j ops
unfolding find sort
find-sort [] d j = refl
find-sort (op ∷ ops) (f, d) j =
    ground
      (arith, find-insert j op (sort ops), find-sort ops d op.client_request_id, find-sort ops d j)

pub sort-Distinct : (ops : Queue) → Distinct ops → Distinct (sort ops)
unfolding sort
sort-Distinct [] d = tt
sort-Distinct (op ∷ ops) (f, d) =
    insert-Distinct op (sort ops) (find-sort ops d op.client_request_id ∙ f) (sort-Distinct ops d)

in_tail :
    (j : String) (o op : Operation) (ops : Queue)
    → find o.client_request_id ops ≡ none
    → find j ops ≡ some op
    → find j (o ∷ ops) ≡ some op
unfolding find
in_tail j o op ops f e = ground (arith, eq_iff o.client_request_id j)

pub at_head : (o : Operation) (ops : Queue) → find o.client_request_id (o ∷ ops) ≡ some o
unfolding find
at_head o ops = ground (arith, eq_refl o.client_request_id)

-- what holds of every operation that is found holds of all
pub found-All {κ} :
    (p : Operation → Type κ) (ops : Queue)
    → Distinct ops
    → ((j : String) (op : Operation) → find j ops ≡ some op → p op)
    → All p ops
found-All p [] d h = tt
found-All p (o ∷ ops) (f, d) h = (
  h o.client_request_id o (at_head o ops),
  found-All p ops d (λ j op e. h j op (in_tail j o op ops f e)),
)

pub find-id :
    (id : String) (ops : Queue) (o : Operation) → find id ops ≡ some o → o.client_request_id ≡ id
unfolding find
find-id id [] o e = cc
find-id id (x ∷ ops) o e = ground (arith, find-id id ops o, eq_iff x.client_request_id id)
