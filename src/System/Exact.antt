-- ===== src/System/Exact.antt =====
-- The prices of the database as numbers.
use maritime_test_lab.Prelude.{ℕ, String, some, ◌≡◌, sym, ◌∙◌, subst}
use maritime_test_lab.Prelude.Int.{ℤ, pos, ◌*ℤ◌, ◌+ℤ◌, ◌≤ℤ◌, IsInt32, IsInt64}
use maritime_test_lab.Money.{Money, from_usd}
use maritime_test_lab.Estimate.Laws.{estimate_cost-eq-exact_cost, priced_exact, priced_fits}
use maritime_test_lab.Serde.{Serde, Codec, lookup}
use maritime_test_lab.Serde.Laws.{RoundTrips}
use maritime_test_lab.Events.{VoyageCreated, EstimateReady}
use maritime_test_lab.Repository.{Row, find}
use maritime_test_lab.VoyageService.Consumer.{Site}
use maritime_test_lab.System.{Reaches}
use maritime_test_lab.System.Prices.{Priced}
use maritime_test_lab.System.Reachable.{reached_rows-Priced}
use maritime_test_lab.System.Delivery.Stages.{found}

module _ (created : Codec VoyageCreated) (ready : Codec EstimateReady) (serde : Serde)
    (rate : Money) (created_law : RoundTrips created) (ready_law : RoundTrips ready) (a b : ℕ)
    (created_known : lookup created.name serde ≡ some a)
    (ready_known : lookup ready.name serde ≡ some b) where
  -- In every state that calls of the services lead to, the estimate of a row at version 1, whose columns and the rate are machine integers, is rate * distance + fees over the integers: no
  -- overflow ever reached the table. It fits 64 bits, the distance is not negative, and the rate is in the currency of the fees; if the two events are registered and their codecs round-trip.
  pub reached-exact :
      (w : Site) (id : String) (r : Row) (amount : ℤ)
      → Reaches created ready serde rate w
      → find id w.state.voyages ≡ some r
      → r.version ≡ pos 1
      → r.estimate_minor ≡ some amount
      → IsInt32 r.distance_nm
      → IsInt64 r.fees_minor
      → IsInt64 rate.minor
      → (amount ≡ rate.minor *ℤ r.distance_nm +ℤ r.fees_minor)
        × IsInt64 amount
        × (pos 0 ≤ℤ r.distance_nm)
        × (rate.currency ≡ (from_usd r.fees_minor).currency)
  unfolding from_usd
  reached-exact w id r amount h f one e hd hf hr =
      let (_, own) =
        found (Priced created serde rate w.log) id w.state.voyages r f
          (reached_rows-Priced created ready serde rate created_law ready_law a b created_known
            ready_known w h)
          amount e in
      let (cost, p, m) = own one in
      let exact =
        sym (estimate_cost-eq-exact_cost r.distance_nm (from_usd r.fees_minor) rate hd hf hr) ∙ p in
      let (d, minor, _, currency, _) =
        priced_exact r.distance_nm (from_usd r.fees_minor) rate cost exact in
      let fits = priced_fits r.distance_nm (from_usd r.fees_minor) rate cost exact in
      (sym m ∙ minor, subst IsInt64 m fits, d, sym currency)
