-- ===== src/Estimator/Consumer/Soundness.antt =====
-- What the consumer of voyage.created puts on the broker.
use mathlib.Core.List.{Mem, mem-cons_self, mem-cons_of_mem, append-nil, append_assoc, mem-singleton}
use maritime_test_lab.Prelude.{
  List, [], ◌∷◌, ◌++◌, ok, err, ◌≡◌, refl, sym, ap, ◌∙◌, inl, inr, Result-cases, subst,
}
use maritime_test_lab.Money.{Money, from_usd}
use maritime_test_lab.Estimate.{estimate_cost}
use maritime_test_lab.Kafka.{Record, Produced, Ack, acked, refused, answer_lost, append_log}
use maritime_test_lab.Topic
use maritime_test_lab.Serde.{Serde, Codec}
use maritime_test_lab.Serde
use maritime_test_lab.Events.{VoyageCreated, EstimateReady, build_estimate_ready}
use maritime_test_lab.Consumer
use maritime_test_lab.Consumer.{handle_all}
use maritime_test_lab.Estimator.Consumer.{Env, handle, publish_estimate}

pub Record-set : IsSet Record
Record-set = hlevel

module _ (created : Codec VoyageCreated) (ready : Codec EstimateReady) (serde : Serde)
    (rate : Money) (env : Env) where
  -- why the record `p` may follow from the record `r`
  pub data Follows (r : Record) (p : Produced) : Type 0 where
    dead_letter :
        (e : Serde.Error)
        → Serde.decode created serde r.value ≡ err e
        → p ≡ record { topic = Topic.voyage_created_dlq; value = r.value }
        → Follows r p
    estimate :
        (vc : VoyageCreated) (cost : Money)
        → Serde.decode created serde r.value ≡ ok vc
        → estimate_cost vc.distance_nm (from_usd vc.fees_minor) rate ≡ ok cost
        → p.topic ≡ Topic.estimate_ready
        → Serde.encode ready serde (build_estimate_ready vc cost (env.now r)) ≡ ok p.value
        → Follows r p

  -- each record of `more` follows from one of the batch
  abbrev pub AllFollow : List Record → List Produced → Type 0
  AllFollow batch [] = Unit {0}
  AllFollow batch (p ∷ more) = ((r : Record) × Mem r batch × Follows r p) × AllFollow batch more

  -- the log grew by records that follow from the batch
  pub record Grows (batch : List Record) (log log' : List Produced) : Type 0 where
    pub more : List Produced
    pub grown : log' ≡ log ++ more
    pub follow : AllFollow batch more

  nothing : (batch : List Record) (log : List Produced) → Grows batch log log
  nothing batch log = record { more = []; grown = sym (append-nil log); follow = tt }

  answered :
      (r : Record) (log : List Produced) (a : Ack) (p : Produced)
      → Follows r p
      → Grows (r ∷ []) log (append_log a p log)
  answered r log acked p f = record {
    more = p ∷ [];
    grown = refl;
    follow = ((r, mem-cons_self, f), tt);
  }
  answered r log refused p f = nothing (r ∷ []) log
  answered r log answer_lost p f = record {
    more = p ∷ [];
    grown = refl;
    follow = ((r, mem-cons_self, f), tt);
  }

  pub handle-Grows :
      (r : Record) (log : List Produced)
      → Grows (r ∷ []) log (handle created ready serde rate env r log).1
  unfolding handle
  handle-Grows r log = elim (Result-cases (Serde.decode created serde r.value)) [
    | inr (e, d) ↦
        rw (d, handle)
          (answered r log (env.answer r)
            (record { topic = Topic.voyage_created_dlq; value = r.value }) (dead_letter e d refl))
    | inl (vc, d) ↦
        elim (Result-cases (estimate_cost vc.distance_nm (from_usd vc.fees_minor) rate)) [
          | inr (e, c) ↦ rw (d, c, handle) (nothing (r ∷ []) log)
          | inl (cost, c) ↦
              elim (Result-cases
                (Serde.encode ready serde (build_estimate_ready vc cost (env.now r)))) [
                  | inr (e, p) ↦ rw (d, c, p, handle, publish_estimate) (nothing (r ∷ []) log)
                  | inl (payload, p) ↦
                      rw (d, c, p, handle, publish_estimate)
                        (answered r log (env.answer r)
                          (record { topic = Topic.estimate_ready; value = payload })
                          (estimate vc cost d c refl p))
                ]
        ]
  ]

  here_or_later :
      (r : Record) (batch : List Record) (more : List Produced)
      → AllFollow batch more
      → AllFollow (r ∷ batch) more
  here_or_later r batch [] h = tt
  here_or_later r batch (p ∷ more) ((q, m, f), h) =
      ((q, mem-cons_of_mem r m, f), here_or_later r batch more h)

  first_of_batch :
      (r : Record) (batch : List Record) (more : List Produced)
      → AllFollow (r ∷ []) more
      → AllFollow (r ∷ batch) more
  first_of_batch r batch [] h = tt
  first_of_batch r batch (p ∷ more) ((q, m, f), h) = (
    (r, mem-cons_self, subst (λ x. Follows x p) ((mem-singleton Record-set).0 m) f),
    first_of_batch r batch more h,
  )

  AllFollow-append :
      (batch : List Record) (more rest : List Produced)
      → AllFollow batch more
      → AllFollow batch rest
      → AllFollow batch (more ++ rest)
  AllFollow-append batch [] rest h k = k
  AllFollow-append batch (p ∷ more) rest h k = (h.0, AllFollow-append batch more rest h.1 k)

  -- Whatever the broker answers, everything that a round puts on the broker follows from a record of its batch: an undecodable record, copied to the dead-letter topic,
  -- or a decoded voyage, whose estimate.ready event carries its key, its version and the price that `EstimateCost` gives.
  pub handle_all-Grows :
      (batch : List Record) (log : List Produced)
      → Grows batch log (handle_all (handle created ready serde rate env) batch log).1
  unfolding handle_all
  handle_all-Grows [] log = nothing [] log
  handle_all-Grows (r ∷ batch) log =
      let one = handle-Grows r log in
      let rest = handle_all-Grows batch (handle created ready serde rate env r log).1 in
      record {
        more = one.more ++ rest.more;
        grown =
            rest.grown ∙ ap (λ l. l ++ rest.more) one.grown ∙ append_assoc log one.more rest.more;
        follow =
            AllFollow-append (r ∷ batch) one.more rest.more
              (first_of_batch r batch one.more one.follow)
              (here_or_later r batch rest.more rest.follow);
      }
