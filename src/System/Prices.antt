-- ===== src/System/Prices.antt =====
-- The price of a row, and what the statements leave of it.
use maritime_test_lab.Prelude.{
  ℕ, String, true, some, List, ok, ◌≡◌, refl, arith, sym, All, eq_iff, subst,
}
use maritime_test_lab.Prelude.Int.{ℤ, pos}
use maritime_test_lab.Money.{Money, from_usd}
use maritime_test_lab.Estimate.{estimate_cost}
use maritime_test_lab.Voyage.{Voyage}
use maritime_test_lab.Serde.{Serde, Codec}
use maritime_test_lab.Serde
use maritime_test_lab.Events.{VoyageCreated, to_voyage_created}
use maritime_test_lab.Kafka.{Produced}
use maritime_test_lab.Kafka.Log.{Holds}
use maritime_test_lab.Topic
use maritime_test_lab.Repository
use maritime_test_lab.Repository.{
  Row, OutboxRow, State, update_higher_wins, is_older, replace, update_where, upsert_estimate,
  takes_estimate, set_estimate, first_where, scan_voyage, new_row,
}
use maritime_test_lab.System.Sources.{All-update_where, All-update_second}
use maritime_test_lab.System.Anchors.{
  Versioned, Bound, Anchored, estimate-Anchored, older-Versioned,
}
use maritime_test_lab.Repository.Outcomes.{upsert_outcome}

some_injective : {A : Type 0} {x y : A} → some x ≡ some y → x ≡ y
some_injective e = cc

module _ (created : Codec VoyageCreated) (serde : Serde) (rate : Money)
    (heard : List Produced) where
  -- the broker holds the event of the voyage
  abbrev pub Announced : Voyage → Type 0
  Announced v =
      (bytes : List ℕ) × (Serde.encode created serde (to_voyage_created v) ≡ ok bytes)
      × Holds (record { topic = Topic.voyage_created; value = bytes }) heard

  -- the amount is the price of a voyage of the id at version 1 that was announced
  abbrev pub PriceOf : String → ℤ → Type 0
  PriceOf id amount =
      (v : Voyage) × (cost : Money) × (v.client_request_id ≡ id)
      × (v.version ≡ pos 1)
      × Announced v
      × (estimate_cost v.distance_nm (from_usd v.fees_minor) rate ≡ ok cost)
      × (cost.minor ≡ amount)

  -- The estimate of a row is such a price, and while the row is at version 1, it is the price of what the row says.
  abbrev pub Priced : Row → Type 0
  Priced r =
      (amount : ℤ)
      → r.estimate_minor ≡ some amount
      → PriceOf r.client_request_id amount
        × (r.version ≡ pos 1
            → (cost : Money) × (estimate_cost r.distance_nm (from_usd r.fees_minor) rate ≡ ok cost)
              × (cost.minor ≡ amount))

  pub update-Priced :
      (v : Voyage) (rows : List Row)
      → All Versioned rows
      → All Priced rows
      → All Priced (update_higher_wins v rows)
  unfolding update_higher_wins
  update-Priced v rows known p =
      All-update_second Versioned Priced (is_older v) (replace v) rows
        (λ r t h q n e. ((q n e).0, λ one. absurd ((older-Versioned v r t h).1 one))) known p

  takes-id :
      (id : String) (version amount : ℤ) (r : Row)
      → takes_estimate id version amount r ≡ true
      → r.client_request_id ≡ id
  takes-id id version amount r e = ground (arith, eq_iff r.client_request_id id)

  set_estimate-Priced :
      (v : Voyage) (cost : Money) (r : Row)
      → v.version ≡ pos 1
      → Announced v
      → estimate_cost v.distance_nm (from_usd v.fees_minor) rate ≡ ok cost
      → Bound v r
      → takes_estimate v.client_request_id v.version cost.minor r ≡ true
      → Priced (set_estimate cost.minor r)
  set_estimate-Priced v cost r one said c b t n e =
      let same = takes-id v.client_request_id v.version cost.minor r t in
      (
        (v, cost, sym same, one, said, c, some_injective e),
        λ first.
            let (d, f) = b same first in
            (
              cost,
              subst (λ x. estimate_cost x (from_usd r.fees_minor) rate ≡ ok cost) (sym d)
                  (subst (λ x. estimate_cost v.distance_nm (from_usd x) rate ≡ ok cost) (sym f) c),
              some_injective e,
            ),
      )

  estimates-Priced :
      (v : Voyage) (cost : Money) (rows : List Row)
      → v.version ≡ pos 1
      → Announced v
      → estimate_cost v.distance_nm (from_usd v.fees_minor) rate ≡ ok cost
      → Anchored rows v
      → All Priced rows
      → All Priced (
          update_where
            (takes_estimate v.client_request_id v.version cost.minor)
            (set_estimate cost.minor)
            rows)
  estimates-Priced v cost rows one said c a p =
      let test = takes_estimate v.client_request_id v.version cost.minor in
      All-update_second (Bound v) Priced test (set_estimate cost.minor) rows
        (λ r t b q. set_estimate-Priced v cost r one said c b t) a.bound p

  pub upsert_estimate-Priced :
      (env : Repository.Env) (v : Voyage) (cost : Money) (s : State)
      → v.version ≡ pos 1
      → Announced v
      → estimate_cost v.distance_nm (from_usd v.fees_minor) rate ≡ ok cost
      → Anchored s.voyages v
      → All Versioned s.voyages
      → All Priced s.voyages
      → let t : State = (upsert_estimate env v.client_request_id v.version cost.minor s).1 in
        All Versioned t.voyages
        × All Priced t.voyages
        × (t.outbox ≡ s.outbox)
        × ((x : Voyage) → Anchored s.voyages x → Anchored t.voyages x)
  upsert_estimate-Priced env v cost s one said c a versioned rows =
      upsert_outcome
        (λ t.
          All Versioned t.voyages
          × All Priced t.voyages
          × (t.outbox ≡ s.outbox)
          × ((x : Voyage) → Anchored s.voyages x → Anchored t.voyages x))
        env s (versioned, rows, refl, λ x k. k) v.client_request_id v.version cost.minor
        (
          All-update_where Versioned (takes_estimate v.client_request_id v.version cost.minor)
              (set_estimate cost.minor) s.voyages (λ q t p. p) versioned,
          estimates-Priced v cost s.voyages one said c a rows,
          refl,
          λ x. estimate-Anchored v.client_request_id v.version cost.minor x s.voyages,
        )

-- a price stays one when more is announced
module _ (created : Codec VoyageCreated) (serde : Serde) (rate : Money)
    (heard heard' : List Produced) (more : (p : Produced) → Holds p heard → Holds p heard') where
  pub Announced-mono :
      (v : Voyage) → Announced created serde rate heard v → Announced created serde rate heard' v
  Announced-mono v (bytes, e, h) = (bytes, e, more _ h)

  pub Priced-mono :
      (r : Row) → Priced created serde rate heard r → Priced created serde rate heard' r
  Priced-mono r p n e =
      let ((v, cost, key, one, said, c, m), own) = p n e in
      ((v, cost, key, one, Announced-mono v said, c, m), own)
