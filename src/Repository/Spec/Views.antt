-- ===== src/Repository/Spec/Views.antt =====
-- The statements, as the map sees them.
use mathlib.Core.Option
use maritime_test_lab.Prelude.{
  ℕ, String, Option, none, some, List, [], ◌∷◌, if◌then◌else◌, str_eq, ◌≡◌, refl, arith, ◌∙◌, ap,
  inl, inr, eq_iff, Bool-cases, Option-cases, ◌++◌, subst,
}
use maritime_test_lab.Prelude.Int.{ℤ, eqb_ℤ_iff}
use maritime_test_lab.Voyage.{Voyage}
use maritime_test_lab.Repository.{
  Row, State, find, scan_voyage, new_row, update_higher_wins, update_where, takes_estimate,
  set_estimate, is_older, replace,
}
use maritime_test_lab.Repository.Rows.{find-append, find-update_where, find_key}
use maritime_test_lab.Repository.Updates.{find-update_higher_wins}
use maritime_test_lab.Repository.Spec.{Voyages, creates, or_first, merged, priced, effect, view}

-- pointwise equal maps are equal
pub pointwise : (m n : Voyages) → ((j : String) → m j ≡ n j) → m ≡ n
pointwise m n h = λ i j. h j i

view-append :
    (now : ℕ) (v : Voyage) (rows : List Row) (j : String)
    → find v.client_request_id rows ≡ none
    → Option.map scan_voyage (find j (rows ++ new_row now v ∷ [])) ≡ (
        if str_eq v.client_request_id j
        then some (or_first v (Option.map scan_voyage (find j rows)))
        else Option.map scan_voyage (find j rows))
unfolding scan_voyage
view-append now v rows j f =
    ground (arith, find-append j rows (new_row now v), eq_iff v.client_request_id j)

pub view-create :
    (now : ℕ) (v : Voyage) (s t : State)
    → find v.client_request_id s.voyages ≡ none
    → t.voyages ≡ s.voyages ++ new_row now v ∷ []
    → view t ≡ effect (creates v) (view s)
view-create now v s t f e =
    pointwise (view t) (effect (creates v) (view s))
      (λ j. ap (λ rows. Option.map scan_voyage (find j rows)) e ∙ view-append now v s.voyages j f)

-- a key that has its voyage
pub view-again :
    (v c : Voyage) (s : State)
    → view s v.client_request_id ≡ some c
    → view s ≡ effect (creates v) (view s)
view-again v c s e = pointwise (view s) (effect (creates v) (view s)) on
  where
    on : (j : String) → view s j ≡ effect (creates v) (view s) j
    on j = elim (Bool-cases (str_eq v.client_request_id j)) [
      | inr h ↦ rw h refl
      | inl h ↦
          let same : view s j ≡ some c =
            subst (λ x. view s x ≡ some c) ((eq_iff v.client_request_id j).0 h) e in
          rw (h, same) refl
    ]

updated_row :
    (v : Voyage) (r : Row) (j : String)
    → r.client_request_id ≡ j
    → some (scan_voyage (if is_older v r then replace v r else r)) ≡ (
        if str_eq v.client_request_id j
        then some (merged v (scan_voyage r))
        else some (scan_voyage r))
unfolding scan_voyage
updated_row v r j e =
    ground (arith, eq_iff r.client_request_id v.client_request_id, eq_iff v.client_request_id j)

priced_row :
    (id : String) (version amount : ℤ) (r : Row) (j : String)
    → r.client_request_id ≡ j
    → some (scan_voyage (if takes_estimate id version amount r then set_estimate amount r else r))
      ≡ (if str_eq id j then some (priced version amount (scan_voyage r)) else some (scan_voyage r))
unfolding scan_voyage
priced_row id version amount r j e = ground (
  arith,
  eq_iff r.client_request_id id,
  eq_iff id j,
  Option-cases r.estimate_minor,
  (λ (m : ℤ). eqb_ℤ_iff m amount),
)

pub view-update :
    (v : Voyage) (rows : List Row) (j : String)
    → Option.map scan_voyage (find j (update_higher_wins v rows)) ≡ (
        if str_eq v.client_request_id j
        then Option.map (merged v) (Option.map scan_voyage (find j rows))
        else Option.map scan_voyage (find j rows))
view-update v rows j =
    ap (Option.map scan_voyage) (find-update_higher_wins v j rows) ∙ on (find j rows) refl
  where
    on :
        (o : Option Row)
        → find j rows ≡ o
        → Option.map scan_voyage (Option.map (λ r. if is_older v r then replace v r else r) o) ≡ (
            if str_eq v.client_request_id j
            then Option.map (merged v) (Option.map scan_voyage o)
            else Option.map scan_voyage o)
    on none e = ground arith
    on (some r) e = updated_row v r j (find_key j rows r e)

pub view-estimate :
    (id : String) (version amount : ℤ) (rows : List Row) (j : String)
    → Option.map scan_voyage
        (find j (update_where (takes_estimate id version amount) (set_estimate amount) rows))
      ≡ (if str_eq id j
          then Option.map (priced version amount) (Option.map scan_voyage (find j rows))
          else Option.map scan_voyage (find j rows))
view-estimate id version amount rows j =
    ap (Option.map scan_voyage) (
      find-update_where (takes_estimate id version amount) (set_estimate amount) (λ r. refl) j rows)
    ∙ on (find j rows) refl
  where
    on :
        (o : Option Row)
        → find j rows ≡ o
        → Option.map scan_voyage (
            Option.map
              (λ r. if takes_estimate id version amount r then set_estimate amount r else r)
              o)
          ≡ (if str_eq id j
              then Option.map (priced version amount) (Option.map scan_voyage o)
              else Option.map scan_voyage o)
    on none e = ground arith
    on (some r) e = priced_row id version amount r j (find_key j rows r e)
