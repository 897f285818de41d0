-- ===== src/Tests/Sync.antt =====
-- A device with a pending update, against the services that hold its voyage.
use maritime_test_lab.Prelude.{
  String, Option, none, some, List, [], ◌∷◌, Result, ok, err, ◌≡◌, ◌≢◌, ◌⊎◌, refl, arith, inl, inr,
}
use maritime_test_lab.Prelude.Int.{ℤ, pos, wrap}
use maritime_test_lab.Serde.{lookup}
use maritime_test_lab.Serde
use maritime_test_lab.Events.{voyage_created_encoder}
use maritime_test_lab.Voyage.{validate}
use maritime_test_lab.Repository
use maritime_test_lab.Gateway.Laws.{over}
use maritime_test_lab.Gateway.Schema.Input.{Scalars}
use maritime_test_lab.Gateway.Schema.Object.{Marshaler, null, Runtime}
use maritime_test_lab.Gateway.Schema.Root.{mutate}
use maritime_test_lab.Gateway.Schema.Laws.{Resolves}
use maritime_test_lab.System.Posted.{Wire, Reads, Fits, posted, posted_field}
use maritime_test_lab.System.Posted.Laws.{posted-answered}
use maritime_test_lab.Repository.{State}
use maritime_test_lab.VoyageService.Server
use maritime_test_lab.VoyageService.Consumer.{Site}
use maritime_test_lab.Gateway.Resolvers
use maritime_test_lab.Onboard.Queue.{find, put, sort}
use maritime_test_lab.Onboard.Store.{Store, load, replay, split_lines, drop_cr, parse_line, pending}
use maritime_test_lab.Onboard.Store.Durable.{Durable}
use maritime_test_lab.Onboard.Syncer.{Syncer, sync_once}
use maritime_test_lab.Onboard.Transport
use maritime_test_lab.System.{Step, Steps, Reaches, relayed}
use maritime_test_lab.System.Acknowledged.{mutation, mutated, mutation-Landed, Landed}
use maritime_test_lab.System.Sync.{Responded, transport, sync_once-Landed}
use maritime_test_lab.Tests.System.{voyages, estimates, serde, rate, calm, healthy, stored, sailing}
use maritime_test_lab.Tests.Onboard.{updated, codec, sound, sound-Sound, updated-Prints}
use maritime_test_lab.Tests.Gateway.{offline, docs, marshal, post, errors_of}

-- the voyage is created, and then a pass of the poller follows its update
abbrev behind : Site
behind = relayed healthy (mutated voyages estimates serde rate offline calm updated stored)

stored-Reaches : Reaches voyages estimates serde rate stored
stored-Reaches = Reaches.step Reaches.here (Step.create calm sailing refl)

later :
    Steps voyages estimates serde rate
      (mutated voyages estimates serde rate offline calm updated stored)
      behind
later = Steps.next Steps.done (Step.relay healthy refl)

abbrev shown : Resolvers.Voyage
shown = record {
  client_request_id = "a";
  origin = "NLRTM";
  dest = "SGSIN";
  distance_nm = pos 7;
  fees_minor = pos 150;
  version = pos 2;
  estimate_minor = pos 0;
}

mutation-Landed_example : Landed updated behind
unfolding mutation Resolvers.update_voyage Server.update_voyage validate Repository.update
    Repository.get Repository.find Repository.update_higher_wins Repository.update_where
    Repository.create Repository.scan_voyage Resolvers.to_model_voyage Server.to_proto wrap
    voyage_created_encoder Serde.encode lookup
mutation-Landed_example =
    mutation-Landed voyages estimates serde rate offline calm updated stored behind shown
      (omega arith) stored-Reaches refl later

-- the update is pending
abbrev queued : Store
queued = record { ops = updated ∷ []; file = some (2 ∷ 10 ∷ []); tmp = none }

queued-Durable : Durable codec queued
unfolding find load replay split_lines parse_line drop_cr put
queued-Durable = record {
  distinct = (refl, tt);
  prints = (updated-Prints, tt);
  closed = inr (2 ∷ [], refl);
  replayed = updated ∷ [];
  apart = (refl, tt);
  loads = refl;
  same = λ j. refl;
}

abbrev waiting : Syncer
waiting = record { store = queued; retry_count = 0; last_attempt = 0; last_error = "" }

-- raw values that are texts or numbers
abbrev pub Raw : Type 0
Raw = String ⊎ ℤ

abbrev text_of : Raw → Result String String
text_of (inl t) = ok t
text_of (inr n) = err "not a text"

abbrev int_of : Raw → Result String ℤ
int_of (inl t) = err "not a number"
int_of (inr n) = ok n

abbrev pub scalars : Scalars Raw
scalars = record { unmarshal_id = text_of; unmarshal_string = text_of; unmarshal_int = int_of }

abbrev pub wire : Wire Raw
wire = record { text = inl; number = inr }

pub wire-Reads : Reads scalars wire
wire-Reads = record { id = λ t. refl; string = λ t. refl; int = λ n h. refl }

abbrev pub or_null : Option Marshaler → Marshaler
or_null none = null
or_null (some m) = m

abbrev pub settled :
    {A S : Type 0}
    → Result Resolvers.Error A × S
    → (A → Option Marshaler)
    → (Marshaler × List String) × S
settled (err x, s) m = ((null, "refused" ∷ []), s)
settled (ok a, s) m = ((or_null (m a), []), s)

abbrev resolve :
    {I A S : Type 0}
    → Result String I
    → (I → S → Result Resolvers.Error A × S)
    → (A → Option Marshaler)
    → S
    → (Marshaler × List String) × S
resolve (err e) run m s = ((null, e ∷ []), s)
resolve (ok i) run m s = settled (run i s) m

abbrev pub runtime : Runtime State
runtime = record { plain = λ a m. or_null (m a); resolve = resolve; optional = resolve }

settled-err :
    {A S : Type 0} (r : Result Resolvers.Error A × S) (m : A → Option Marshaler)
    (x : Resolvers.Error)
    → r.0 ≡ err x
    → (settled r m).0.1 ≢ []
settled-err (ok a, s) m x e = λ h. cc
settled-err (err y, s) m x e = λ h. cc

settled-state :
    {A S : Type 0} (r : Result Resolvers.Error A × S) (m : A → Option Marshaler)
    → (settled r m).1 ≡ r.1
settled-state (ok a, s) m = refl
settled-state (err x, s) m = refl

pub runtime-Resolves : Resolves runtime
runtime-Resolves = record {
  refused = λ e run m s. (λ h. cc, refl);
  failed = λ i run m s x e. settled-err (run i s) m x e;
  ran = λ i run m s. settled-state (run i s) m;
}

updated-Fits : Fits updated
updated-Fits = record { distance_nm = omega arith; fees_minor = omega arith; version = omega arith }

posted-answered_example :
    (voyage : Resolvers.Voyage) × ((mutation
        (over (voyage_created_encoder voyages serde) offline calm)
        updated
        stored.state).0
      ≡ ok voyage)
    × ((posted scalars wire runtime
          (over (voyage_created_encoder voyages serde) offline calm)
          updated
          stored.state).1
        ≡ (mutation
            (over (voyage_created_encoder voyages serde) offline calm)
            updated
            stored.state).1)
unfolding mutation posted_field mutate Server.update_voyage validate wrap Repository.update
    Repository.find Repository.update_higher_wins Repository.create voyage_created_encoder
    Serde.encode lookup
posted-answered_example =
    posted-answered scalars wire wire-Reads runtime runtime-Resolves
      (over (voyage_created_encoder voyages serde) offline calm) updated stored.state updated-Fits
      refl

updated-Responded :
    Responded voyages estimates serde rate offline scalars wire runtime updated behind
unfolding mutation posted_field mutate Server.update_voyage validate wrap Repository.update
    Repository.find Repository.update_higher_wins Repository.create voyage_created_encoder
    Serde.encode lookup
updated-Responded = record {
  env = calm;
  before = stored;
  reached = stored-Reaches;
  clean = refl;
  later = later;
}

abbrev text : Transport.Error → String
text e = "no ack"

sync_once-Landed_example :
    (find "a" (
        pending
          (sync_once codec
            (transport docs marshal post errors_of text)
            (λ o. 9)
            (λ o. sound)
            waiting).1.store)
      ≡ some updated)
    ⊎ Landed updated behind
unfolding find sort
sync_once-Landed_example =
    sync_once-Landed voyages estimates serde rate offline scalars wire runtime docs marshal post
      errors_of text codec (λ o. 9) (λ o. sound) waiting behind "a" updated (λ o. sound-Sound)
      queued-Durable runtime-Resolves wire-Reads (λ a. updated-Responded) refl updated-Fits
