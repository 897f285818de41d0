-- ===== src/System/Delivery/Stages.antt =====
-- The stages on the way: a creation that was acknowledged, its pricing, and the application of the price.
use mathlib.Core.Option
use mathlib.Core.List.{Mem, mem-append_right, mem-cons_self, map-append}
use maritime_test_lab.Prelude.{
  ℕ, String, false, none, some, List, [], ◌∷◌, ◌++◌, Result, ◌≡◌, ◌≢◌, refl, arith, sym, ◌∙◌, ap,
  subst, ok, Option-cases, Bool-cases, inl, inr, All, str_eq, eq_refl,
}
use maritime_test_lab.Prelude.Int.{ℤ, pos, negsuc, ◌≤ℤ◌, eqb_ℤ_iff}
use maritime_test_lab.Money.{Money, from_usd}
use maritime_test_lab.Estimate.{estimate_cost}
use maritime_test_lab.Serde.{Serde, Codec, lookup}
use maritime_test_lab.Serde
use maritime_test_lab.Events.{
  VoyageCreated, EstimateReady, to_voyage_created, build_estimate_ready, voyage_created_encoder,
}
use maritime_test_lab.Kafka.{Record, Produced, acked}
use maritime_test_lab.Topic
use maritime_test_lab.Voyage.{Voyage, Error}
use maritime_test_lab.Repository
use maritime_test_lab.Repository.{
  Row, OutboxRow, State, find, new_row, scan_voyage, upsert_estimate, is_distinct, set_estimate,
}
use maritime_test_lab.Repository.Rows.{find-append}
use maritime_test_lab.Repository.Creates.{Created, create_atomic, create_stored, event_row}
use maritime_test_lab.Repository.Estimates.{upsert_estimate-exact, with_estimate}
use maritime_test_lab.Outbox.Safety.{contents}
use maritime_test_lab.Estimator.Consumer as Pricing
use maritime_test_lab.VoyageService.Consumer as Applying
use maritime_test_lab.VoyageService.Consumer.{Site}
use maritime_test_lab.VoyageService.Consumer.Redelivered.{applied_state, handle_decoded}
use maritime_test_lab.System.Tables.{Orderly}
use maritime_test_lab.System.Genuine.{encoded_as}

pub first : (z : ℤ) → pos 1 ≤ℤ z → z ≤ℤ pos 1 → z ≡ pos 1
first (pos n) h k = ap pos (omega arith)
first (negsuc n) h k = absurd (omega arith)

pub found {κ} :
    (p : Row → Type κ) (id : String) (rows : List Row) (r : Row)
    → find id rows ≡ some r
    → All p rows
    → p r
unfolding find
found p id [] r e a = cc
found p id (q ∷ rows) r e a = elim (Bool-cases (str_eq q.client_request_id id)) [
  | inl h ↦ subst p (ground arith) a.0
  | inr h ↦ found p id rows r (ground arith) a.1
]

pub upserted :
    (amount : ℤ) (r : Row)
    → ((with_estimate (pos 1) amount r).version ≡ r.version)
      × (r.version ≡ pos 1 → (with_estimate (pos 1) amount r).estimate_minor ≢ none)
upserted amount r = (
  ground arith,
  λ one e. ground (arith, (eqb_ℤ_iff r.version (pos 1)).1 one, Option-cases r.estimate_minor),
)

fresh_row :
    (rows : List Row) (r : Row)
    → find r.client_request_id rows ≡ none
    → find r.client_request_id (rows ++ r ∷ []) ≡ some r
fresh_row rows r e =
    ground (arith, find-append r.client_request_id rows r, eq_refl r.client_request_id)

no_row : {A : Type 0} {x : A} → none ≢ some x
no_row e = cc

some_voyage : {x y : Voyage} → some x ≡ some y → x ≡ y
some_voyage e = cc

module _ (created : Codec VoyageCreated) (ready : Codec EstimateReady) (serde : Serde)
    (rate : Money) where
  -- a voyage at version 1 that has its row and its event
  pub record Stored (t : State) (c : Voyage) : Type 0 where
    pub row : Row
    pub payload : List ℕ
    pub id : ℕ
    pub carrier : List ℕ
    pub found_row : find c.client_request_id t.voyages ≡ some row
    pub one : c.version ≡ pos 1
    pub encoded : Serde.encode created serde (to_voyage_created c) ≡ ok payload
    pub event :
        Mem
          (id, record { topic = Topic.voyage_created; value = payload }, carrier)
          (contents t.outbox)

  event_stored :
      (s t : State) (id : ℕ) (topic : String) (payload carrier : List ℕ)
      → topic ≡ Topic.voyage_created
      → t.outbox ≡ s.outbox ++ event_row id topic payload carrier ∷ []
      → Mem
          (id, record { topic = Topic.voyage_created; value = payload }, carrier)
          (contents t.outbox)
  event_stored s t id topic payload carrier e o = rw o (
      subst (λ x. Mem (id, record { topic = Topic.voyage_created; value = payload }, carrier) x)
        (sym (map-append _ s.outbox _)) (mem-append_right (contents s.outbox) (rw e mem-cons_self)))

  created-Stored :
      (now : ℕ) (given : Result Error (List ℕ)) (v : Voyage) (s t : State)
      → Created (voyage_created_encoder created serde) now given v s t
      → Stored t (scan_voyage (new_row now v))
  unfolding scan_voyage
  created-Stored now given v s t k =
      let (topic, encoded) =
        encoded_as created ready serde rate [] (scan_voyage (new_row now v)) k.topic k.payload
          k.encoded in
      record {
        row = new_row now v;
        payload = k.payload;
        id = s.next_id;
        carrier = k.carrier;
        found_row = rw k.voyages (fresh_row s.voyages (new_row now v) k.fresh);
        one = refl;
        encoded = encoded;
        event = event_stored s t s.next_id k.topic k.payload k.carrier topic k.outbox;
      }

  -- the acknowledged creation of a fresh key
  pub create-Stored :
      (env : Repository.Env) (v c : Voyage) (s : State)
      → find v.client_request_id s.voyages ≡ none
      → (Repository.create (voyage_created_encoder created serde) env v s).0 ≡ ok c
      → Stored (Repository.create (voyage_created_encoder created serde) env v s).1 c
  create-Stored env v c s f e =
      elim (create_atomic (voyage_created_encoder created serde) env v s) [
        | inl u ↦ absurd (no_row (sym (rw (u.voyages, f) refl) ∙ read))
        | inr k ↦
            let at : find v.client_request_id t.voyages ≡ some (new_row env.now v) =
              rw k.voyages (fresh_row s.voyages (new_row env.now v) k.fresh) in
            subst (Stored t) (some_voyage (sym (ap (Option.map scan_voyage) at) ∙ read))
              (created-Stored env.now env.carrier v s t k)
      ]
    where
      t : State
      t = (Repository.create (voyage_created_encoder created serde) env v s).1

      read : Option.map scan_voyage (find v.client_request_id t.voyages) ≡ some c
      read = create_stored (voyage_created_encoder created serde) env v c s e

  -- an event that the estimator handles well
  pub price_log :
      (env : Pricing.Env) (event : Record) (vc : VoyageCreated) (cost : Money) (frame : List ℕ)
      (log : List Produced)
      → Serde.decode created serde event.value ≡ ok vc
      → estimate_cost vc.distance_nm (from_usd vc.fees_minor) rate ≡ ok cost
      → env.answer event ≡ acked
      → Serde.encode ready serde (build_estimate_ready vc cost (env.now event)) ≡ ok frame
      → (Pricing.handle created ready serde rate env event log).1
        ≡ log ++ record { topic = Topic.estimate_ready; value = frame } ∷ []
  unfolding Pricing.handle Pricing.publish_estimate
  price_log env event vc cost frame log d c a e =
      rw (d, c, e, a, Pricing.handle, Pricing.publish_estimate) refl

-- what an estimate for version 1 does to the row of its voyage
pub applied_row :
    (ready : Codec EstimateReady) (serde : Serde) (env : Applying.Env) (estimate : Record)
    (er : EstimateReady) (w : Site) (r : Row)
    → Orderly w
    → Serde.decode ready serde estimate.value ≡ ok er
    → er.voyage_version ≡ pos 1
    → (env.repository estimate).query_fails ≡ false
    → (env.repository estimate).commit ≡ Repository.committed
    → find er.voyage_id w.state.voyages ≡ some r
    → find er.voyage_id (Applying.handle ready serde env estimate w).1.state.voyages
      ≡ some (with_estimate (pos 1) er.amount_minor r)
applied_row ready serde env estimate er w r o d one runs done f =
    let answer =
      upsert_estimate (env.repository estimate) er.voyage_id er.voyage_version er.amount_minor
        w.state in
    let (_, here, _, _) =
      upsert_estimate-exact (env.repository estimate) er.voyage_id er.voyage_version er.amount_minor
        w.state runs er.voyage_id done o.distinct in
    rw
      (
        handle_decoded ready serde env env estimate w er env w d,
        applied_state (env.now estimate) answer w,
      )
      (here
        ∙ ap (Option.map (with_estimate er.voyage_version er.amount_minor)) f
        ∙ ap (λ n. some (with_estimate n er.amount_minor r)) one)
