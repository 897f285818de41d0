-- ===== src/Repository/Updates.antt =====
-- UpdateVoyage's merge rule: the higher version wins, in whatever order the writes arrive.
use mathlib.Core.Option
use mathlib.Core.List.{Mem, Perm, Permᴰ, mem-cons_self, mem-cons_of_mem}
use mathlib.Core.List.Perm
use mathlib.Core.Logic.{∥∥₁_elim}
use text.Mathlib.TextEquality.{IsScalar-prop}
use maritime_test_lab.Prelude.{
  String, false, Option, none, some, List, [], ◌∷◌, if◌then◌else◌, str_eq, eq_iff, ◌≡◌, ◌≢◌, refl,
  ap₂, arith, Bool-cases, inl, inr, ap, ok, err, ◌∙◌,
}
use maritime_test_lab.Prelude.Int.{ℤ_discrete, ltb_ℤ}
use maritime_test_lab.Voyage.{Voyage, voyage_not_found}
use maritime_test_lab.Repository.{
  Row, State, Env, find, update_where, is_older, replace, update_higher_wins, update, scan_voyage,
  Commit, committed, rolled_back, answer_lost, kept,
}
use maritime_test_lab.Repository.Rows.{find-update_where, find_key}

-- the row after a write, whether the write lands or is stale
abbrev pub merge : Voyage → Row → Row
merge v r = if ltb_ℤ r.version v.version then replace v r else r

pub find-update_higher_wins :
    (v : Voyage) (id : String) (rows : List Row)
    → find id (update_higher_wins v rows)
      ≡ Option.map (λ r. if is_older v r then replace v r else r) (find id rows)
unfolding update_higher_wins
find-update_higher_wins v id rows = find-update_where (is_older v) (replace v) (λ r. refl) id rows

pub same_key :
    (v : Voyage) (rows : List Row)
    → find v.client_request_id (update_higher_wins v rows)
      ≡ Option.map (merge v) (find v.client_request_id rows)
same_key v rows = rw find-update_higher_wins (on (find v.client_request_id rows) refl)
  where
    on :
        (o : Option Row)
        → find v.client_request_id rows ≡ o
        → Option.map (λ r. if is_older v r then replace v r else r) o ≡ Option.map (merge v) o
    on none e = refl
    on (some r) e = ground (
      arith,
      find_key v.client_request_id rows r e,
      eq_iff r.client_request_id v.client_request_id,
    )

other_key :
    (v : Voyage) (j : String) (rows : List Row)
    → v.client_request_id ≢ j
    → find j (update_higher_wins v rows) ≡ find j rows
other_key v j rows h = rw find-update_higher_wins (on (find j rows) refl)
  where
    on :
        (o : Option Row)
        → find j rows ≡ o
        → Option.map (λ r. if is_older v r then replace v r else r) o ≡ o
    on none e = refl
    on (some r) e =
        ground (arith, find_key j rows r e, eq_iff r.client_request_id v.client_request_id)

-- An update whose statements succeed and commit returns the row of its key as the merge rule leaves it (the fields and the version of
-- the write if its version is strictly higher, else the row as it was, and in both cases the estimate and created_at of the row),
-- stores just that row, leaves the rows of all other keys as they were, and answers not-found for a key that has no row.
pub update-merge :
    (env : Env) (v : Voyage) (s : State) (j : String)
    → env.exec_fails ≡ false
    → env.commit ≡ committed
    → env.read_fails ≡ false
    → ((update env v s).0 ≡ (elim (find v.client_request_id s.voyages) [
      | none ↦ err voyage_not_found
      | some r ↦ ok (scan_voyage (merge v r))
    ]))
      × (find v.client_request_id (update env v s).1.voyages
          ≡ Option.map (merge v) (find v.client_request_id s.voyages))
      × (v.client_request_id ≢ j → find j (update env v s).1.voyages ≡ find j s.voyages)
      × ((update env v s).1.outbox ≡ s.outbox)
unfolding update
update-merge env v s j he hc hr = ground (
  arith,
  find-update_higher_wins v v.client_request_id s.voyages,
  find-update_higher_wins v j s.voyages,
  same_key v s.voyages,
  other_key v j s.voyages,
)

-- Redelivering a write changes nothing.
update_higher_wins_idem :
    (v : Voyage) (rows : List Row)
    → update_higher_wins v (update_higher_wins v rows) ≡ update_higher_wins v rows
unfolding update_higher_wins update_where
update_higher_wins_idem v [] = refl
update_higher_wins_idem v (r ∷ rows) = ground (arith, update_higher_wins_idem v rows)

-- two writes that do not tell different stories about one version of one voyage
abbrev pub Agree : Voyage → Voyage → Type 0
Agree v w = v.client_request_id ≡ w.client_request_id → v.version ≡ w.version → v ≡ w

abbrev write_row : Voyage → Row → Row
write_row v r = if is_older v r then replace v r else r

apart_rows :
    (v w : Voyage) (r : Row)
    → v.version ≢ w.version
    → write_row v (write_row w r) ≡ write_row w (write_row v r)
apart_rows v w r h = ground arith

other_rows :
    (v w : Voyage) (r : Row)
    → v.client_request_id ≢ w.client_request_id
    → write_row v (write_row w r) ≡ write_row w (write_row v r)
other_rows v w r h = ground (
  arith,
  eq_iff r.client_request_id v.client_request_id,
  eq_iff r.client_request_id w.client_request_id,
)

write_row_comm :
    (v w : Voyage) (r : Row) → Agree v w → write_row v (write_row w r) ≡ write_row w (write_row v r)
write_row_comm v w r h = elim (ℤ_discrete v.version w.version) [
  | no apart ↦ apart_rows v w r apart
  | yes same ↦ elim (Bool-cases (str_eq v.client_request_id w.client_request_id)) [
    | inl one ↦ rw (h ((eq_iff _ _).0 one) same) refl
    | inr two ↦ other_rows v w r (λ e. cc (two, (eq_iff _ _).1 e))
  ]
]

update_higher_wins_comm :
    (v w : Voyage) (rows : List Row)
    → Agree v w
    → update_higher_wins v (update_higher_wins w rows)
      ≡ update_higher_wins w (update_higher_wins v rows)
unfolding update_higher_wins update_where
update_higher_wins_comm v w [] h = refl
update_higher_wins_comm v w (r ∷ rows) h =
    ap₂ ◌∷◌ (write_row_comm v w r h) (update_higher_wins_comm v w rows h)

-- one write after another
unfoldable pub write_all : Env → List Voyage → State → State
write_all env [] s = s
write_all env (v ∷ vs) s = write_all env vs (update env v s).1

-- the state behind an update whose commit ends so
abbrev written : Commit → Voyage → State → State
written c v s =
    kept c s (record s { db = record s.db { voyages = update_higher_wins v s.voyages } })

update_comm :
    (env : Env) (v w : Voyage) (s : State)
    → Agree v w
    → (update env v (update env w s).1).1 ≡ (update env w (update env v s).1).1
unfolding update
update_comm env v w s h = elim (Bool-cases env.exec_fails) [
  | inl fails ↦ rw fails refl
  | inr runs ↦ rw runs (commit_comm env.commit)
]
  where
    both :
        record s {
          db = record s.db { voyages = update_higher_wins v (update_higher_wins w s.voyages) };
        }
        ≡ record s {
          db = record s.db { voyages = update_higher_wins w (update_higher_wins v s.voyages) };
        }
    both =
        ap (λ rows. record s { db = record s.db { voyages = rows } })
          (update_higher_wins_comm v w s.voyages h)

    commit_comm : (c : Commit) → written c v (written c w s) ≡ written c w (written c v s)
    commit_comm committed = both
    commit_comm rolled_back = refl
    commit_comm answer_lost = both

State-set : IsSet State
State-set = hlevel IsScalar-prop

abbrev pub AllAgree : List Voyage → Type 0
AllAgree vs = (v w : Voyage) → Mem v vs → Mem w vs → Agree v w

write_all_perm :
    {vs ws : List Voyage}
    → Permᴰ vs ws
    → AllAgree vs
    → (env : Env) (s : State) → write_all env vs s ≡ write_all env ws s
unfolding write_all
write_all_perm Permᴰ.nil h env s = refl
write_all_perm (Permᴰ.cons {a = a} {b = b} e p) h env s = rw (← e) (
    write_all_perm p (λ v w m n. h v w (mem-cons_of_mem a m) (mem-cons_of_mem a n)) env
      (update env a s).1)
write_all_perm (Permᴰ.swap {a = a} {b = b} {l = l} e f) h env s =
    rw (← e, ← f)
      (ap (write_all env l)
        (update_comm env b a s (h b a (mem-cons_of_mem a mem-cons_self) mem-cons_self)))
write_all_perm (Permᴰ.trans p q) h env s =
    write_all_perm p h env s
    ∙ write_all_perm q (λ v w m n. h v w ((Perm.mem_iff ∣ p ∣₁).1 m) ((Perm.mem_iff ∣ p ∣₁).1 n))
        env s

-- Updates converge: in whatever order the same updates run, the state ends the same, as long as no
-- two of them give one version of one voyage two contents.
pub write_all_converges :
    {vs ws : List Voyage} (env : Env) (s : State)
    → Perm vs ws
    → AllAgree vs
    → write_all env vs s ≡ write_all env ws s
write_all_converges env s p h = ∥∥₁_elim p (State-set _ _) (λ d. write_all_perm d h env s)

-- Running an update once more changes nothing.
pub update_idem :
    (env : Env) (v : Voyage) (s : State) → (update env v (update env v s).1).1 ≡ (update env v s).1
unfolding update
update_idem env v s = elim (Bool-cases env.exec_fails) [
  | inl fails ↦ rw fails refl
  | inr runs ↦ rw runs (commit_idem env.commit)
]
  where
    once :
        record s {
          db = record s.db { voyages = update_higher_wins v (update_higher_wins v s.voyages) };
        }
        ≡ record s { db = record s.db { voyages = update_higher_wins v s.voyages } }
    once =
        ap (λ rows. record s { db = record s.db { voyages = rows } })
          (update_higher_wins_idem v s.voyages)

    commit_idem : (c : Commit) → written c v (written c v s) ≡ written c v s
    commit_idem committed = once
    commit_idem rolled_back = refl
    commit_idem answer_lost = once
