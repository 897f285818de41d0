-- ===== src/Repository/Creates.antt =====
-- Create: one transaction for the voyage and its event, and the idempotency key.
use maritime_test_lab.Prelude.{
  ℕ, suc, String, false, Option, none, some, List, [], ◌∷◌, ◌++◌, ◌≡◌, refl, arith, Bool-cases,
  Option-cases, inl, inr, eq_refl, ap, ok, ◌⊎◌, ◌∙◌, Result-cases, Result,
}
use maritime_test_lab.Voyage.{Voyage, Error}
use maritime_test_lab.Repository.{
  Row, OutboxRow, State, Env, Commit, rolled_back, OutboxEncoder, find, new_row, insert_voyage,
  create, create_event, get, scan_voyage, finish, insert_outbox,
}
use maritime_test_lab.Repository.Rows.{find-append}
use mathlib.Core.Option
use mathlib.Core.Option.{some-injective}

abbrev pub event_row : ℕ → String → List ℕ → List ℕ → OutboxRow
event_row id topic payload carrier = record {
  id = id;
  topic = topic;
  payload = payload;
  trace_carrier = carrier;
  published_at = none;
}

module _ (encode : OutboxEncoder) where
  -- both rows of a new voyage stand in the database `t`, behind what was in `s`
  pub record Created (now : ℕ) (given : Result Error (List ℕ)) (v : Voyage) (s t : State)
      : Type 0 where
    pub fresh : find v.client_request_id s.voyages ≡ none
    pub topic : String
    pub payload : List ℕ
    pub carrier : List ℕ
    pub encoded : encode (scan_voyage (new_row now v)) ≡ ok (topic, payload)
    pub injected : given ≡ ok carrier
    pub voyages : t.voyages ≡ s.voyages ++ new_row now v ∷ []
    pub outbox : t.outbox ≡ s.outbox ++ event_row s.next_id topic payload carrier ∷ []
    pub next_id : t.next_id ≡ suc s.next_id

  -- neither table changed; an identity may have been drawn
  pub record Untouched (s t : State) : Type 0 where
    pub voyages : t.voyages ≡ s.voyages
    pub outbox : t.outbox ≡ s.outbox
    pub next_id : (t.next_id ≡ s.next_id) ⊎ (t.next_id ≡ suc s.next_id)

  module _ (env : Env) (v : Voyage) (s : State)
      (f : find v.client_request_id s.voyages ≡ none) where
    abbrev added : List Row
    added = s.voyages ++ new_row env.now v ∷ []

    commit_atomic :
        (c : Commit) (topic : String) (payload carrier : List ℕ)
        → encode (scan_voyage (new_row env.now v)) ≡ ok (topic, payload)
        → let t : State = record s {
          db =
              finish c s.db (insert_outbox topic payload carrier (record s.db { voyages = added }));
        } in
          Untouched s t ⊎ Created env.now (ok carrier) v s t
    unfolding finish insert_outbox
    commit_atomic rolled_back topic payload carrier e =
        inl (record { voyages = refl; outbox = refl; next_id = inr refl })
    commit_atomic _ topic payload carrier e = inr (record {
      fresh = f;
      topic = topic;
      payload = payload;
      carrier = carrier;
      encoded = e;
      injected = refl;
      voyages = refl;
      outbox = refl;
      next_id = refl;
    })

    event_atomic :
        Untouched s (create_event encode env (new_row env.now v) added s).1
        ⊎ Created env.now env.carrier v s (create_event encode env (new_row env.now v) added s).1
    unfolding create_event
    event_atomic = elim (Result-cases (encode (scan_voyage (new_row env.now v)))) [
      | inr (e, h) ↦ rw (h, create_event) same
      | inl ((topic, payload), h) ↦ elim (Result-cases env.carrier) [
        | inr (e, c) ↦ rw (h, c, create_event) same
        | inl (carrier, c) ↦ elim (Bool-cases env.exec_fails) [
          | inl x ↦ rw (h, c, x, create_event) same
          | inr x ↦ rw (h, c, x, create_event) (commit_atomic env.commit topic payload carrier h)
        ]
      ]
    ]
      where
        same : {given : Result Error (List ℕ)} → Untouched s s ⊎ Created env.now given v s s
        same = inl (record { voyages = refl; outbox = refl; next_id = inl refl })

  -- Whatever fails on the way, a lost commit answer included: `Create` leaves both tables as they
  -- were, or it adds the voyage at version 1 and its encoded event, with the trace carrier of the call, together, and does so only for a
  -- key that had no row.
  pub create_atomic :
      (env : Env) (v : Voyage) (s : State)
      → Untouched s (create encode env v s).1
        ⊎ Created env.now env.carrier v s (create encode env v s).1
  unfolding create insert_voyage
  create_atomic env v s = elim (Bool-cases env.begin_fails) [
    | inl x ↦ rw x same
    | inr x ↦ elim (Bool-cases env.query_fails) [
      | inl y ↦ rw (x, y) same
      | inr y ↦ elim (Option-cases (find v.client_request_id s.voyages)) [
        | inr (r, f) ↦ rw (x, y, f, insert_voyage) same'
        | inl f ↦ rw (x, y, f, insert_voyage) (event_atomic env v s f)
      ]
    ]
  ]
    where
      same : Untouched s s ⊎ Created env.now env.carrier v s s
      same = inl (record { voyages = refl; outbox = refl; next_id = inl refl })

      same' :
          let t : State = record s { dedupe_total = suc s.dedupe_total } in
          Untouched s t ⊎ Created env.now env.carrier v s t
      same' = inl (record { voyages = refl; outbox = refl; next_id = inl refl })

  -- For a key that has a row, whatever else the request says, `Create` returns that row and writes
  -- nothing; only the counter of dedupes goes up.
  pub create_again :
      (env : Env) (v : Voyage) (s : State) (r : Row)
      → find v.client_request_id s.voyages ≡ some r
      → env.begin_fails ≡ false
      → env.query_fails ≡ false
      → env.read_fails ≡ false
      → create encode env v s ≡ (ok (scan_voyage r), record s { dedupe_total = suc s.dedupe_total })
  unfolding create get insert_voyage
  create_again env v s r f h1 h2 h3 = ground arith

  -- An acknowledged `Create` is stored: the row of its key reads as the voyage that was returned.
  pub create_stored :
      (env : Env) (v c : Voyage) (s : State)
      → (create encode env v s).0 ≡ ok c
      → Option.map scan_voyage (find v.client_request_id (create encode env v s).1.voyages) ≡ some c
  unfolding create get insert_voyage finish insert_outbox
  create_stored env v c s e = ground (
    arith,
    find-append v.client_request_id s.voyages (new_row env.now v),
    eq_refl v.client_request_id,
  )

  -- for a key without a row, it is the voyage that was asked for, at version 1 and without an estimate
  pub created_new :
      (env : Env) (v c : Voyage) (s : State)
      → find v.client_request_id s.voyages ≡ none
      → (create encode env v s).0 ≡ ok c
      → c ≡ scan_voyage (new_row env.now v)
  unfolding create create_event insert_voyage
  created_new env v c s fresh e = ground arith

  read_of :
      (o : Option Row) (c : Voyage)
      → Option.map scan_voyage o ≡ some c
      → (r : Row) × (o ≡ some r) × (scan_voyage r ≡ c)
  read_of none c e = cc
  read_of (some r) c e = (r, refl, ground arith)

  -- A retry of an acknowledged `Create` under the same key, whatever its other fields, returns the voyage that the first
  -- returned, and adds no row and no event.
  pub create_retry :
      (env env' : Env) (v w c : Voyage) (s : State)
      → (create encode env v s).0 ≡ ok c
      → w.client_request_id ≡ v.client_request_id
      → env'.begin_fails ≡ false
      → env'.query_fails ≡ false
      → env'.read_fails ≡ false
      → (create encode env' w (create encode env v s).1).0 ≡ ok c
        × ((create encode env' w (create encode env v s).1).1.db ≡ (create encode env v s).1.db)
  create_retry env env' v w c s e k h1 h2 h3 =
      let (r, f, read) =
        read_of (find v.client_request_id t.voyages) c (create_stored env v c s e) in
      let again = create_again env' w t r (rw k f) h1 h2 h3 in
      (ap (λ p. p.0) again ∙ ap ok read, ap (λ p. p.1.db) again)
    where
      t : State
      t = (create encode env v s).1
