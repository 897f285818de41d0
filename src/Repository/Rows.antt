-- ===== src/Repository/Rows.antt =====
-- The statements, seen from one key.
use mathlib.Core.Option
use maritime_test_lab.Prelude.{
  String, Bool, none, some, List, [], ◌∷◌, ◌++◌, map, if◌then◌else◌, str_eq, eq_iff, ◌≡◌, refl,
  arith, ◌≢◌,
}
use maritime_test_lab.Prelude.Int.{ℤ}
use maritime_test_lab.Repository.{
  Row, find, update_where, first_where, takes_estimate, State, Commit, committed, rolled_back,
  answer_lost, kept,
}

pub find-append :
    (id : String) (rows : List Row) (r : Row)
    → find id (rows ++ r ∷ []) ≡ (elim (find id rows) [
      | some q ↦ some q
      | none ↦ if str_eq r.client_request_id id then some r else none
    ])
unfolding find
find-append id [] r = refl
find-append id (q ∷ rows) r = ground (arith, find-append id rows r)

-- the key of the row that `find` returns
pub find_key :
    (id : String) (rows : List Row) (r : Row) → find id rows ≡ some r → r.client_request_id ≡ id
unfolding find
find_key id [] r e = cc
find_key id (q ∷ rows) r e = ground (arith, find_key id rows r, eq_iff q.client_request_id id)

module _ (test : Row → Bool) (change : Row → Row)
    (keeps : (r : Row) → (change r).client_request_id ≡ r.client_request_id) where
  pub find-update_where :
      (id : String) (rows : List Row)
      → find id (update_where test change rows)
        ≡ Option.map (λ r. if test r then change r else r) (find id rows)
  unfolding find update_where
  find-update_where id [] = refl
  find-update_where id (r ∷ rows) = ground (arith, find-update_where id rows, keeps r)

  pub keys-update_where :
      (rows : List Row)
      → map (λ r. r.client_request_id) (update_where test change rows)
        ≡ map (λ r. r.client_request_id) rows
  unfolding update_where
  keys-update_where [] = refl
  keys-update_where (r ∷ rows) = ground (arith, keys-update_where rows, keeps r)

pub update_where-none :
    (test : Row → Bool) (change : Row → Row) (rows : List Row)
    → first_where test rows ≡ none
    → update_where test change rows ≡ rows
unfolding first_where update_where
update_where-none test change [] h = refl
update_where-none test change (r ∷ rows) h = ground (arith, update_where-none test change rows)

-- what holds before and behind a statement holds however its commit ends
pub kept_keeps {κ} : (p : State → Type κ) (c : Commit) (s t : State) → p s → p t → p (kept c s t)
kept_keeps p committed s t h k = k
kept_keeps p rolled_back s t h k = h
kept_keeps p answer_lost s t h k = k

pub kept_lands : (c : Commit) (s t : State) → c ≢ rolled_back → kept c s t ≡ t
kept_lands committed s t h = refl
kept_lands rolled_back s t h = absurd (h refl)
kept_lands answer_lost s t h = refl

-- Keys are distinct: `client_request_id` is the primary key.
abbrev pub Distinct : List Row → Type 0
Distinct [] = Unit {0}
Distinct (r ∷ rows) = (find r.client_request_id rows ≡ none) × Distinct rows

pub Distinct-append :
    (rows : List Row) (r : Row)
    → Distinct rows
    → find r.client_request_id rows ≡ none
    → Distinct (rows ++ r ∷ [])
unfolding find
Distinct-append [] r d h = (refl, tt)
Distinct-append (q ∷ rows) r d h = (
  ground (
    arith,
    find-append q.client_request_id rows r,
    eq_iff q.client_request_id r.client_request_id,
    eq_iff r.client_request_id q.client_request_id,
  ),
  Distinct-append rows r d.1 (ground arith),
)

pub Distinct-update_where :
    (test : Row → Bool) (change : Row → Row)
    → ((r : Row) → (change r).client_request_id ≡ r.client_request_id)
    → (rows : List Row) → Distinct rows
    → Distinct (update_where test change rows)
unfolding update_where
Distinct-update_where test change keeps [] d = tt
Distinct-update_where test change keeps (r ∷ rows) d = (
  ground (arith, keeps r, find-update_where test change keeps r.client_request_id rows),
  Distinct-update_where test change keeps rows d.1,
)

-- With distinct keys, a condition that names a key holds of no row but the one that `find` gives.
pub first_where-find :
    (id : String) (version amount : ℤ) (rows : List Row)
    → Distinct rows
    → first_where (takes_estimate id version amount) rows ≡ (elim (find id rows) [
      | none ↦ none
      | some r ↦ if takes_estimate id version amount r then some r else none
    ])
unfolding find first_where
first_where-find id version amount [] d = refl
first_where-find id version amount (r ∷ rows) d =
    ground (arith, first_where-find id version amount rows d.1, eq_iff r.client_request_id id)
