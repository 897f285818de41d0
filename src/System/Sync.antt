-- ===== src/System/Sync.antt =====
-- A round of clients/onboard-sync against the services: what leaves the queue of the device stands in the tables.
use maritime_test_lab.Prelude.{
  ℕ, String, Option, none, some, List, [], ◌≡◌, subst, refl, sym, ◌∙◌, Option-cases, inl, inr, ◌⊎◌,
}
use mathlib.Core.Option
use maritime_test_lab.Money.{Money}
use maritime_test_lab.Serde.{Serde, Codec}
use maritime_test_lab.Events.{VoyageCreated, EstimateReady, voyage_created_encoder}
use maritime_test_lab.Voyage.{Estimator}
use maritime_test_lab.Repository.{Env, State}
use maritime_test_lab.VoyageService.Consumer.{Site}
use maritime_test_lab.Gateway.Schema.Input.{Scalars}
use maritime_test_lab.Gateway.Schema.Object.{Runtime}
use maritime_test_lab.Gateway.Schema.Laws.{Resolves}
use maritime_test_lab.Gateway.Laws.{over}
use maritime_test_lab.Onboard.Operation.{Operation}
use maritime_test_lab.Onboard.Queue.{find, find-sort}
use maritime_test_lab.Onboard.Store
use maritime_test_lab.Onboard.Store.{Disk, pending}
use maritime_test_lab.Onboard.Store.Durable.{Durable, Sound}
use maritime_test_lab.Onboard.Syncer.{Syncer, sync_once}
use maritime_test_lab.Onboard.Syncer.Laws.{sync_once-Synced, left}
use maritime_test_lab.Onboard.Transport.{
  Documents, GraphqlRequest, Reply, Acked, send, send-Acked_iff,
}
use maritime_test_lab.Onboard.Transport
use maritime_test_lab.System.{Steps, Reaches}
use maritime_test_lab.System.Acknowledged.{mutation-Landed, Landed}
use maritime_test_lab.System.Posted.{Wire, Reads, Fits, posted}
use maritime_test_lab.System.Posted.Laws.{posted-answered}

module _ (docs : Documents) (marshal : GraphqlRequest → Option (List ℕ)) (post : List ℕ → Reply)
    (errors_of : List ℕ → Option (List String)) (text : Transport.Error → String) where
  -- the transport as the syncer sees it, with the text of an error
  unfoldable pub transport : Operation → Option String
  transport op = Option.map text (send docs marshal post errors_of op)

  transport-none : (op : Operation) → transport op ≡ none → Acked docs marshal post errors_of op
  unfolding transport
  transport-none op e =
      (send-Acked_iff docs marshal post errors_of op).0
        (map-none (send docs marshal post errors_of op) e)
    where
      map-none : (r : Option Transport.Error) → Option.map text r ≡ none → r ≡ none
      map-none none h = refl
      map-none (some x) h = cc

module _ (created : Codec VoyageCreated) (ready : Codec EstimateReady) (serde : Serde)
    (rate : Money) (estimator : Estimator) {V : Type 0} (scalars : Scalars V) (wire : Wire V)
    (runtime : Runtime State) where
  abbrev behind : Env → Operation → State → List String × State
  behind env =
      posted scalars wire runtime (over (voyage_created_encoder created serde) estimator env)

  -- the gateway responded to the operation's mutation without errors at some time before the state
  pub record Responded (op : Operation) (t : Site) : Type 0 where
    pub env : Env
    pub before : Site
    pub reached : Reaches created ready serde rate before
    pub clean : (behind env op before.state).0 ≡ []
    pub later :
        Steps created ready serde rate (record before { state = (behind env op before.state).1 }) t

  Responded-Landed :
      (op : Operation) (t : Site)
      → Resolves runtime
      → Reads scalars wire
      → Fits op
      → Responded op t
      → Landed op t
  Responded-Landed op t resolves reads fits x =
      let (voyage, answered, same) =
        posted-answered scalars wire reads runtime resolves
          (over (voyage_created_encoder created serde) estimator x.env) op x.before.state fits
          x.clean in
      mutation-Landed created ready serde rate estimator x.env op x.before t voyage fits.version
        x.reached answered
        (subst (λ s. Steps created ready serde rate (record x.before { state = s }) t) same x.later)

  module _ (docs : Documents) (marshal : GraphqlRequest → Option (List ℕ)) (post : List ℕ → Reply)
      (errors_of : List ℕ → Option (List String)) (text : Transport.Error → String) where
    abbrev sends : Operation → Option String
    sends = transport docs marshal post errors_of text

    -- No round drops an operation that the services do not have: over a sound disk and a durable queue, an operation that was pending before the round, with
    -- numbers that are int64, and whose clean reply means that the gateway responded to its mutation without errors at some time before a state of the services, is
    -- pending after the round, or its key has a row in the tables of that state, which for an update is at the version of the operation or a higher one; if the
    -- runtime resolves fields as gqlgen documents, and its scalars read what the post carries.
    pub sync_once-Landed :
        (codec : Store.Codec) (now : Operation → ℕ) (disk : Operation → Disk) (s : Syncer)
        (t : Site) (id : String) (op : Operation)
        → ((o : Operation) → Sound (disk o))
        → Durable codec s.store
        → Resolves runtime
        → Reads scalars wire
        → (Acked docs marshal post errors_of op → Responded op t)
        → find id (pending s.store) ≡ some op
        → Fits op
        → (find id (pending (sync_once codec sends now disk s).1.store) ≡ some op) ⊎ Landed op t
    sync_once-Landed codec now disk s t id op sound durable resolves reads responded f fits =
        elim (Option-cases (sends op)) [
          | inl e ↦ inr (
              Responded-Landed op t resolves reads fits
                (responded (transport-none docs marshal post errors_of text op e)))
          | inr (x, e) ↦ inl (kept x e)
        ]
      where
        synced : Syncer
        synced = (sync_once codec sends now disk s).1

        kept : (x : String) → sends op ≡ some x → find id (pending synced.store) ≡ some op
        kept x e =
            let round = sync_once-Synced codec sends now disk sound s durable in
            find-sort synced.store.ops round.durable.distinct id
            ∙ round.entries id
            ∙ rw (f, left, e) (sym (find-sort s.store.ops durable.distinct id) ∙ f)
