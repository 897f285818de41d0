-- ===== src/VoyageService/Consumer/Redelivered.antt =====
-- At-least-once delivery of estimate.ready.
use maritime_test_lab.Prelude.{
  ℕ, true, false, Option, none, some, Result, ok, err, ◌≡◌, refl, ap, ◌∙◌, sym, ◌≢◌,
}
use maritime_test_lab.Kafka.{Record}
use maritime_test_lab.Serde.{Serde, Codec}
use maritime_test_lab.Serde
use maritime_test_lab.Events.{EstimateReady}
use maritime_test_lab.Repository.{State, upsert_estimate, committed, rolled_back}
use maritime_test_lab.Repository.Estimates.{upsert_estimate_redelivered}
use maritime_test_lab.VoyageService.Consumer.{Env, Site, handle, applied}
use maritime_test_lab.Voyage.{Error}

pub applied_state :
    (now : ℕ) (x : Result Error (Option ℕ) × State) (s : Site) → (applied now x s).1.state ≡ x.1
unfolding applied
applied_state now (err e, t) s = refl
applied_state now (ok none, t) s = refl
applied_state now (ok (some n), t) s = refl

pub applied_log :
    (now : ℕ) (x : Result Error (Option ℕ) × State) (s : Site) → (applied now x s).1.log ≡ s.log
unfolding applied
applied_log now (err e, t) s = refl
applied_log now (ok none, t) s = refl
applied_log now (ok (some n), t) s = refl

same_site : (now : ℕ) (s : Site) (t : State) → t ≡ s.state → applied now (ok none, t) s ≡ (true, s)
unfolding applied
same_site now s t e = rw e refl

module _ (ready : Codec EstimateReady) (serde : Serde) (env env' : Env) (r : Record) (s : Site)
    (er : EstimateReady) where
  abbrev upsert : Env → State → Result Error (Option ℕ) × State
  upsert e t = upsert_estimate (e.repository r) er.voyage_id er.voyage_version er.amount_minor t

  pub handle_decoded :
      (e : Env) (t : Site)
      → Serde.decode ready serde r.value ≡ ok er
      → handle ready serde e r t ≡ applied (e.now r) (upsert e t.state) t
  unfolding handle
  handle_decoded e t d = rw (d, handle) refl

  -- A record of estimate.ready that is delivered again behind a delivery whose statement took effect, also where the answer of that was lost, is applied once: the second time it is committable, changes no voyage, and moves no counter.
  pub handle_twice :
      Serde.decode ready serde r.value ≡ ok er
      → (env.repository r).query_fails ≡ false
      → (env.repository r).commit ≢ rolled_back
      → (env'.repository r).query_fails ≡ false
      → (env'.repository r).commit ≡ committed
      → handle ready serde env' r (handle ready serde env r s).1
        ≡ (true, (handle ready serde env r s).1)
  handle_twice d h lands h' done =
      handle_decoded env' t d
      ∙ ap (λ x. applied (env'.now r) x t)
          (ap (upsert env') kept ∙ redelivered ∙ ap (λ x. (ok none, x)) (sym kept))
      ∙ same_site (env'.now r) t t.state refl
    where
      t : Site
      t = (handle ready serde env r s).1

      kept : t.state ≡ (upsert env s.state).1
      kept =
          ap (λ x. x.1.state) (handle_decoded env s d)
          ∙ applied_state (env.now r) (upsert env s.state) s

      redelivered : upsert env' (upsert env s.state).1 ≡ (ok none, (upsert env s.state).1)
      redelivered =
          upsert_estimate_redelivered (env.repository r) (env'.repository r) er.voyage_id
            er.voyage_version er.amount_minor s.state h lands h' done
