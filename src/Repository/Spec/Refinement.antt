-- ===== src/Repository/Spec/Refinement.antt =====
-- The tables implement the map, whatever fails.
use mathlib.Core.Option
use maritime_test_lab.Prelude.{
  ℕ, String, Option, none, some, Result, ok, err, ◌≡◌, ◌≢◌, refl, arith, sym, ◌∙◌, ap, ◌⊎◌, inl,
  inr, eq_refl, Bool-cases, Option-cases, Result-cases, subst,
}
use maritime_test_lab.Prelude.Int.{ℤ}
use maritime_test_lab.Voyage.{Voyage, Error, infra}
use maritime_test_lab.Repository.{
  State, Env, OutboxEncoder, Commit, committed, rolled_back, answer_lost, commit_answer, kept, find,
  scan_voyage, create, update, upsert_estimate, update_higher_wins, update_where, takes_estimate,
  set_estimate, get, first_where,
}
use maritime_test_lab.Repository.Rows.{update_where-none}
use maritime_test_lab.Repository.Creates.{create_atomic, create_stored}
use maritime_test_lab.Repository.Spec.{
  Operation, creates, updates, estimates, or_first, merged, effect, reply, found_or_not, view,
  with_voyage, without, perform,
}
use maritime_test_lab.Repository.Spec.Views.{
  pointwise, view-create, view-again, view-update, view-estimate,
}

-- An operation that failed changed nothing, or it had its effect, and then an answer that it gave is the reply.
abbrev pub Outcome : Result Error (Option Voyage) → State → Operation → State → Type 0
Outcome answer t op s =
    (((x : Option Voyage) → answer ≢ ok x) × (view t ≡ view s))
    ⊎ ((view t ≡ effect op (view s))
        × ((x : Option Voyage) → answer ≡ ok x → reply op (view s) ≡ ok x))

create-reply :
    (v c : Voyage) (s t : State)
    → view t ≡ effect (creates v) (view s)
    → view t v.client_request_id ≡ some c
    → reply (creates v) (view s) ≡ ok (some c)
create-reply v c s t e stored =
    let here : effect (creates v) (view s) v.client_request_id
        ≡ some (or_first v (view s v.client_request_id)) =
      rw (eq_refl v.client_request_id) refl in
    ap ok (sym here ∙ ap (λ m. m v.client_request_id) (sym e) ∙ stored)

-- how a statement's commit ends
commit-Outcome :
    (c : Commit) (op : Operation) (answer : Result Error (Option Voyage)) (s t : State)
    → view t ≡ effect op (view s)
    → ((x : Option Voyage) → answer ≡ ok x → reply op (view s) ≡ ok x)
    → Outcome (commit_answer c answer) (kept c s t) op s
commit-Outcome committed op answer s t e r = inr (e, r)
commit-Outcome rolled_back op answer s t e r = inl (λ x h. cc, refl)
commit-Outcome answer_lost op answer s t e r = inr (e, λ x h. cc)

with_voyage-commit :
    (c : Commit) (answer : Result Error Voyage)
    → with_voyage (commit_answer c answer) ≡ commit_answer c (with_voyage answer)
with_voyage-commit committed answer = refl
with_voyage-commit rolled_back answer = refl
with_voyage-commit answer_lost answer = refl

without-commit :
    (c : Commit) (answer : Result Error (Option ℕ))
    → without (commit_answer c answer) ≡ commit_answer c (without answer)
without-commit committed answer = refl
without-commit rolled_back answer = refl
without-commit answer_lost answer = refl

got :
    (env : Env) (id : String) (t : State) (x : Option Voyage)
    → with_voyage (get env id t) ≡ ok x
    → found_or_not (view t id) ≡ ok x
unfolding get
got env id t x h = ground (arith, Option-cases (find id t.voyages))

-- a statement that finds nothing to write
idle-Outcome :
    (c : Commit) (op : Operation) (answer : Result Error (Option Voyage)) (s : State)
    → view s ≡ effect op (view s)
    → ((x : Option Voyage) → answer ≡ ok x → reply op (view s) ≡ ok x)
    → Outcome (commit_answer c answer) s op s
idle-Outcome committed op answer s e r = inr (e, r)
idle-Outcome rolled_back op answer s e r = inl (λ x h. cc, refl)
idle-Outcome answer_lost op answer s e r = inl (λ x h. cc, refl)

failed : (s : State) (op : Operation) → Outcome (err infra) s op s
failed s op = inl (λ x h. cc, refl)

update-Outcome :
    (env : Env) (v : Voyage) (s : State)
    → Outcome (with_voyage (update env v s).0) (update env v s).1 (updates v) s
unfolding update
update-Outcome env v s = elim (Bool-cases env.exec_fails) [
  | inl e ↦ rw e (failed s (updates v))
  | inr e ↦ rw e (
      subst (λ a. Outcome a (kept env.commit s t) (updates v) s)
        (sym (with_voyage-commit env.commit (get env v.client_request_id t)))
        (commit-Outcome env.commit (updates v) (with_voyage (get env v.client_request_id t)) s t
          seen (λ x h. told ∙ got env v.client_request_id t x h)))
]
  where
    t : State
    t = record s { db = record s.db { voyages = update_higher_wins v s.voyages } }

    seen : view t ≡ effect (updates v) (view s)
    seen = pointwise (view t) (effect (updates v) (view s)) (view-update v s.voyages)

    told : reply (updates v) (view s) ≡ found_or_not (view t v.client_request_id)
    told =
        let here : effect (updates v) (view s) v.client_request_id
            ≡ Option.map (merged v) (view s v.client_request_id) =
          rw (eq_refl v.client_request_id) refl in
        ap found_or_not (sym here ∙ ap (λ m. m v.client_request_id) (sym seen))

estimate-Outcome :
    (env : Env) (id : String) (version amount : ℤ) (s : State)
    → Outcome
        (without (upsert_estimate env id version amount s).0)
        (upsert_estimate env id version amount s).1
        (estimates id version amount)
        s
unfolding upsert_estimate
estimate-Outcome env id version amount s = elim (Bool-cases env.query_fails) [
  | inl e ↦ rw e (failed s (estimates id version amount))
  | inr e ↦ elim (Option-cases (first_where (takes_estimate id version amount) s.voyages)) [
    | inl f ↦
        rw (e, f)
          (subst (λ a. Outcome a s op s) (sym (without-commit env.commit (ok none)))
            (idle-Outcome env.commit op (ok none) s
              (ap (λ rows j. Option.map scan_voyage (find j rows))
                  (sym (update_where-none _ (set_estimate amount) s.voyages f))
                ∙ seen)
              (λ x h. h)))
    | inr (r, f) ↦
        rw (e, f)
          (subst (λ a. Outcome a (kept env.commit s t) op s)
            (sym (without-commit env.commit (ok (some r.created_at))))
            (commit-Outcome env.commit op (ok none) s t seen (λ x h. h)))
  ]
]
  where
    op : Operation
    op = estimates id version amount

    t : State
    t = record s {
      db = record s.db {
        voyages = update_where (takes_estimate id version amount) (set_estimate amount) s.voyages;
      };
    }

    seen : view t ≡ effect op (view s)
    seen = pointwise (view t) (effect op (view s)) (view-estimate id version amount s.voyages)

module _ (encode : OutboxEncoder) where
  create-Outcome :
      (env : Env) (v : Voyage) (s : State)
      → Outcome (with_voyage (create encode env v s).0) (create encode env v s).1 (creates v) s
  create-Outcome env v s = elim (create_atomic encode env v s) [
    | inr c ↦ landed (view-create env.now v s t c.fresh c.voyages)
    | inl u ↦ elim (Result-cases (create encode env v s).0) [
      | inr (e, h) ↦ rw h (inl (λ x k. cc, unmoved u.voyages))
      | inl (c, h) ↦ landed (
          unmoved u.voyages
          ∙ view-again v c s (
              ap (λ rows. Option.map scan_voyage (find v.client_request_id rows)) (sym u.voyages)
              ∙ create_stored encode env v c s h))
    ]
  ]
    where
      t : State
      t = (create encode env v s).1

      unmoved : t.voyages ≡ s.voyages → view t ≡ view s
      unmoved e = ap (λ rows j. Option.map scan_voyage (find j rows)) e

      told :
          (answer : Result Error Voyage) (x : Option Voyage)
          → with_voyage answer ≡ ok x
          → (c : Voyage) × (answer ≡ ok c) × (x ≡ some c)
      told (ok c) x h = (c, refl, ground arith)
      told (err e) x h = cc

      landed :
          view t ≡ effect (creates v) (view s)
          → Outcome (with_voyage (create encode env v s).0) t (creates v) s
      landed e = inr (
        e,
        λ x h.
            let (c, a, same) = told (create encode env v s).0 x h in
            create-reply v c s t e (create_stored encode env v c s a) ∙ ap ok (sym same),
      )

  -- In any environment, an operation of the repository that fails changes no voyage, or has its effect on the map all the same, where an answer was lost; and one that
  -- answers has had its effect, and its answer is the reply of the map.
  pub perform-Outcome :
      (env : Env) (op : Operation) (s : State)
      → Outcome (perform encode env op s).0 (perform encode env op s).1 op s
  perform-Outcome env (creates v) s = create-Outcome env v s
  perform-Outcome env (updates v) s = update-Outcome env v s
  perform-Outcome env (estimates id version amount) s = estimate-Outcome env id version amount s
