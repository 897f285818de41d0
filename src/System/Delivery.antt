-- ===== src/System/Delivery.antt =====
-- The way of an event from the outbox to the estimate of its row, whatever other calls come between.
pub mod Stages
pub mod Eventually
use mathlib.Core.Option
use mathlib.Core.List.{Mem, Mem-prop, eq-or-mem_of_mem-cons, not-mem-nil}
use mathlib.Core.Logic.Or
use maritime_test_lab.Prelude.{
  ℕ, ◌*◌, ◌≤◌, String, Bool, true, false, Option, none, some, List, [], ◌∷◌, ◌++◌, map, ◌≡◌, ◌≢◌,
  refl, arith, sym, ◌∙◌, ap, subst, ok, err, Option-cases, Bool-cases, inl, inr, All, length,
}
use maritime_test_lab.Money.{Money, from_usd}
use maritime_test_lab.Estimate.{estimate_cost}
use maritime_test_lab.Serde.{Serde, Codec}
use maritime_test_lab.Serde
use maritime_test_lab.Events.{
  VoyageCreated, EstimateReady, to_voyage_created, build_estimate_ready, voyage_created_encoder,
}
use maritime_test_lab.Kafka.{Record, Produced, acked}
use maritime_test_lab.Kafka.Log.{Holds, Holds-last, mem-Holds}
use maritime_test_lab.Topic
use maritime_test_lab.Voyage.{Voyage}
use maritime_test_lab.Repository
use maritime_test_lab.Repository.{Row, OutboxRow, State, find, new_row, scan_voyage}
use maritime_test_lab.Repository.Rows.{find-append}
use maritime_test_lab.Repository.Creates.{Created, create_atomic, create_stored, event_row}
use maritime_test_lab.Outbox.{PollEnv, Relay, produced, where_unpublished, limit}
use maritime_test_lab.Outbox.Delivery.{Healthy}
use maritime_test_lab.Outbox.Safety.{contents}
use maritime_test_lab.Outbox.Poller.{run}
use maritime_test_lab.Outbox.Poller.Laws.{Delivered, run_delivers}
use maritime_test_lab.Estimator.Consumer as Pricing
use maritime_test_lab.VoyageService.Consumer as Applying
use maritime_test_lab.VoyageService.Consumer.{Site}
use maritime_test_lab.System.{Step, Steps, Reaches, relayed, ticked}
use maritime_test_lab.System.Tables.{Orderly, reached-Orderly}
use maritime_test_lab.System.Evolution.{Evolves, Evolves-refl, Evolves-trans, step-Evolves}

abbrev relay_of : Site → Relay
relay_of w = record { db = w.state.db; log = w.log }

ticked-run :
    (ticks : List PollEnv) (w : Site) → relay_of (ticked ticks w) ≡ (run ticks (relay_of w)).1
unfolding run
ticked-run [] w = refl
ticked-run (env ∷ ticks) w = ticked-run ticks (relayed env w)

delivered-mem :
    (log : List Produced) (rows : List OutboxRow) (c : ℕ × Produced × List ℕ)
    → Delivered log rows
    → Mem c (contents rows)
    → Mem c.1 log
delivered-mem log [] c d m = absurd (not-mem-nil m)
delivered-mem log (r ∷ rows) c d m =
    Or.elim Mem-prop (eq-or-mem_of_mem-cons m)
      (λ e. subst (λ x. Mem x log) (sym (ap (λ x. x.1) e)) d.0)
      (λ k. delivered-mem log rows c d.1 k)

-- the record of an event of the outbox is on the broker after enough ticks
pub ticked-Holds :
    (ticks : List PollEnv) (w : Site) (c : ℕ × Produced × List ℕ)
    → Orderly w
    → All Healthy ticks
    → length (where_unpublished w.state.outbox) ≤ length ticks * limit
    → Mem c (contents w.state.outbox)
    → Holds c.1 (ticked ticks w).log
ticked-Holds ticks w c o h n m =
    let (_, d, _) = run_delivers [] ticks (relay_of w) 1 w.state.next_id h o.between o.logged n in
    mem-Holds c.1 (ticked ticks w).log (
      delivered-mem (ticked ticks w).log w.state.outbox c
        (subst (λ s. Delivered s.log w.state.outbox) (sym (ticked-run ticks w)) d) m)

module _ (created : Codec VoyageCreated) (ready : Codec EstimateReady) (serde : Serde)
    (rate : Money) where
  pub Reaches-Steps :
      (w t : Site)
      → Reaches created ready serde rate w
      → Steps created ready serde rate w t
      → Reaches created ready serde rate t
  Reaches-Steps w _ h Steps.done = h
  Reaches-Steps w t h (Steps.next {t = u} before s) = Reaches.step (Reaches-Steps w u h before) s

  pub Reaches-ticked :
      (ticks : List PollEnv) (w : Site)
      → Reaches created ready serde rate w
      → Reaches created ready serde rate (ticked ticks w)
  Reaches-ticked [] w h = h
  Reaches-ticked (env ∷ ticks) w h =
      Reaches-ticked ticks (relayed env w) (Reaches.step h (Step.relay env refl))

  pub Steps-Evolves :
      (w t : Site)
      → Reaches created ready serde rate w
      → Steps created ready serde rate w t
      → Evolves w t
  Steps-Evolves w _ h Steps.done = Evolves-refl w
  Steps-Evolves w t h (Steps.next {t = u} before s) =
      Evolves-trans w u t (Steps-Evolves w u h before) (
        step-Evolves created ready serde rate u t s
          (reached-Orderly created ready serde rate u (Reaches-Steps w u h before)))

  pub ticked-Evolves :
      (ticks : List PollEnv) (w : Site)
      → Reaches created ready serde rate w
      → Evolves w (ticked ticks w)
  ticked-Evolves [] w h = Evolves-refl w
  ticked-Evolves (env ∷ ticks) w h =
      Evolves-trans w (relayed env w) (ticked ticks (relayed env w))
        (step-Evolves created ready serde rate w (relayed env w) (Step.relay env refl)
          (reached-Orderly created ready serde rate w h))
        (ticked-Evolves ticks (relayed env w) (Reaches.step h (Step.relay env refl)))
