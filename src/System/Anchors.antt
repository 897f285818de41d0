-- ===== src/System/Anchors.antt =====
-- The rows that the events of the program are about.
use maritime_test_lab.Prelude.{
  ℕ, String, Bool, true, none, List, [], ◌∷◌, ◌++◌, ◌≡◌, ◌≢◌, refl, arith, ap, eq_iff, eq_refl, All,
  All-append, Bool-cases, inl, inr, str_eq,
}
use maritime_test_lab.Prelude.Int.{ℤ, pos, ◌≤ℤ◌, pos_part, neg_part}
use maritime_test_lab.Voyage.{Voyage}
use maritime_test_lab.Repository.{
  Row, find, new_row, update_where, update_higher_wins, is_older, replace, takes_estimate,
  set_estimate, scan_voyage,
}
use maritime_test_lab.Repository.Rows.{find-append, find-update_where}
use maritime_test_lab.System.Sources.{All-update_where, All-update_second}

-- versions start at 1
abbrev pub Versioned : Row → Type 0
Versioned r = pos 1 ≤ℤ r.version

-- while the row of the voyage's key is at version 1, it is the voyage
abbrev pub Bound : Voyage → Row → Type 0
Bound v r =
    r.client_request_id ≡ v.client_request_id
    → r.version ≡ pos 1
    → (r.distance_nm ≡ v.distance_nm) × (r.fees_minor ≡ v.fees_minor)

pub record Anchored (rows : List Row) (v : Voyage) : Type 0 where
  pub bound : All (Bound v) rows
  pub present : find v.client_request_id rows ≢ none

absent-Bound :
    (v : Voyage) (rows : List Row) → find v.client_request_id rows ≡ none → All (Bound v) rows
unfolding find
absent-Bound v [] e = tt
absent-Bound v (r ∷ rows) e = elim (Bool-cases (str_eq r.client_request_id v.client_request_id)) [
  | inl h ↦ ground arith
  | inr h ↦ (
    λ same. absurd (ground (arith, eq_iff r.client_request_id v.client_request_id)),
    absent-Bound v rows (ground arith),
  )
]

present-append :
    (id : String) (rows : List Row) (r : Row)
    → find id rows ≢ none
    → find id (rows ++ r ∷ []) ≢ none
present-append id rows r h e = ground (arith, h, find-append id rows r)

-- the voyage that was created
pub created-Anchored :
    (now : ℕ) (v : Voyage) (rows : List Row)
    → find v.client_request_id rows ≡ none
    → Anchored (rows ++ new_row now v ∷ []) (scan_voyage (new_row now v))
unfolding scan_voyage
created-Anchored now v rows e = record {
  bound =
      All-append (Bound (scan_voyage (new_row now v))) rows (new_row now v ∷ [])
        (absent-Bound (scan_voyage (new_row now v)) rows e) ((λ same one. (refl, refl)), tt);
  present = λ h.
      ground
        (arith, find-append v.client_request_id rows (new_row now v), eq_refl v.client_request_id);
}

-- the voyages that were there before
pub append-Anchored :
    (now : ℕ) (v w : Voyage) (rows : List Row)
    → find v.client_request_id rows ≡ none
    → Anchored rows w
    → Anchored (rows ++ new_row now v ∷ []) w
append-Anchored now v w rows e a = record {
  bound =
      All-append (Bound w) rows (new_row now v ∷ []) a.bound
        ((λ same one. absurd (a.present (rw⁻¹ same e))), tt);
  present = present-append w.client_request_id rows (new_row now v) a.present;
}

present-update_where :
    (test : Row → Bool) (change : Row → Row)
    → ((r : Row) → (change r).client_request_id ≡ r.client_request_id)
    → (id : String) (rows : List Row) → find id rows ≢ none
    → find id (update_where test change rows) ≢ none
present-update_where test change keeps id rows h e =
    ground (arith, h, find-update_where test change keeps id rows)

pub older-Versioned :
    (v : Voyage) (r : Row)
    → is_older v r ≡ true
    → Versioned r
    → Versioned (replace v r) × ((replace v r).version ≢ pos 1)
older-Versioned v r e h = (ground arith, λ one. ground (arith, ap pos_part one, ap neg_part one))

pub update-Versioned :
    (v : Voyage) (rows : List Row) → All Versioned rows → All Versioned (update_higher_wins v rows)
unfolding update_higher_wins
update-Versioned v rows =
    All-update_where Versioned (is_older v) (replace v) rows (λ r e h. (older-Versioned v r e h).0)

pub update-Anchored :
    (v w : Voyage) (rows : List Row)
    → All Versioned rows
    → Anchored rows w
    → Anchored (update_higher_wins v rows) w
unfolding update_higher_wins
update-Anchored v w rows known a = record {
  bound =
      All-update_second Versioned (Bound w) (is_older v) (replace v) rows
        (λ r e h b same one. absurd ((older-Versioned v r e h).1 one)) known a.bound;
  present =
      present-update_where (is_older v) (replace v) (λ r. refl) w.client_request_id rows a.present;
}

pub estimate-Anchored :
    (id : String) (version amount : ℤ) (w : Voyage) (rows : List Row)
    → Anchored rows w
    → Anchored (update_where (takes_estimate id version amount) (set_estimate amount) rows) w
estimate-Anchored id version amount w rows a = record {
  bound =
      All-update_where (Bound w) (takes_estimate id version amount) (set_estimate amount) rows
        (λ r e b. b) a.bound;
  present =
      present-update_where (takes_estimate id version amount) (set_estimate amount) (λ r. refl)
        w.client_request_id rows a.present;
}
