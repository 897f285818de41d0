-- ===== src/Tests/Consumers.antt =====
-- internal/avroserde, the consumers of both services, and their theorems, on small inputs.
use mathlib.Core.List.{Mem, mem-cons, mem-cons_self, mem-cons_of_mem, not-mem-nil}
use mathlib.Core.Logic.Or
use native.Mathlib.Bridge.{le_prop}
use maritime_test_lab.Prelude.{
  ℕ, suc, Bool, true, false, Option, none, some, List, [], ◌∷◌, ok, err, ◌≡◌, ◌↔◌, ◌<◌, ◌≤◌, refl,
  arith, ◌==◌, if◌then◌else◌, leb,
}
use maritime_test_lab.Prelude.Int.{pos}
use maritime_test_lab.Kafka.{Record, Ack, acked, Offsets, Commits}
use maritime_test_lab.Serde.{Serde, Codec, encode, decode, lookup, not_framed}
use maritime_test_lab.Serde.Laws.{decode-encode, RoundTrips}
use maritime_test_lab.Consumer.{handle_all, poll}
use maritime_test_lab.Consumer.Redelivery.{ReadAgain, AllBefore, poll-ReadAgain_iff}
use maritime_test_lab.Money.{Money, mul, add, from_usd}
use maritime_test_lab.Estimate.{estimate_cost}
use maritime_test_lab.Events.{VoyageCreated, EstimateReady}
use maritime_test_lab.Estimator.Consumer as Pricing
use maritime_test_lab.Estimator.Consumer.Soundness.{Grows, handle_all-Grows}
use maritime_test_lab.Repository
use maritime_test_lab.VoyageService.Consumer as Applying
use maritime_test_lab.VoyageService.Consumer.{Site}
use maritime_test_lab.VoyageService.Consumer.Redelivered.{handle_twice}

-- a codec of numbers
abbrev unmarshal_number : List ℕ → Option ℕ
unmarshal_number (n ∷ []) = some n
unmarshal_number _ = none

abbrev numbers : Codec ℕ
numbers = record { name = "number"; marshal = λ n. some (n ∷ []); unmarshal = unmarshal_number }

numbers-RoundTrips : RoundTrips numbers
numbers-RoundTrips n body e = ground arith

abbrev producer : Serde
producer = ("number", 258) ∷ []

abbrev consumer : Serde
consumer = ("other", 258) ∷ ("number", 7) ∷ []

encoded : encode numbers producer 5 ≡ ok (0 ∷ 0 ∷ 0 ∷ 1 ∷ 2 ∷ 5 ∷ [])
unfolding encode lookup
encoded = refl

unframed : decode numbers consumer (1 ∷ 0 ∷ 0 ∷ 1 ∷ 2 ∷ 5 ∷ []) ≡ err not_framed
unfolding decode
unframed = refl

decode-encode_example : decode numbers consumer (0 ∷ 0 ∷ 0 ∷ 1 ∷ 2 ∷ 5 ∷ []) ≡ ok 5
unfolding encode lookup
decode-encode_example =
    decode-encode numbers producer consumer 5 (0 ∷ 0 ∷ 0 ∷ 1 ∷ 2 ∷ 5 ∷ []) 7 numbers-RoundTrips refl
      refl

-- a commit as the broker documents it
abbrev max : ℕ → ℕ → ℕ
max a b = if leb a b then b else a

unfoldable commit : List Record → Offsets → Offsets
commit [] offsets p = offsets p
commit (r ∷ rs) offsets p =
    let rest = commit rs offsets p in if r.partition == p then max (suc r.offset) rest else rest

commit-past :
    (rs : List Record) (offsets : Offsets) (r : Record)
    → Mem r rs
    → r.offset < commit rs offsets r.partition
unfolding commit
commit-past [] offsets r m = absurd (not-mem-nil m)
commit-past (q ∷ rs) offsets r m =
    Or.elim le_prop (mem-cons.0 m) (λ e. rw e (ground arith))
      (λ later. ground (arith, commit-past rs offsets r later))

commit-no_further :
    (rs : List Record) (offsets : Offsets) (p bound : ℕ)
    → ((r : Record) → Mem r rs → r.partition ≡ p → r.offset < bound)
    → offsets p ≤ bound
    → commit rs offsets p ≤ bound
unfolding commit
commit-no_further [] offsets p bound h e = e
commit-no_further (q ∷ rs) offsets p bound h e = ground (
  arith,
  h q mem-cons_self,
  commit-no_further rs offsets p bound (λ r m. h r (mem-cons_of_mem q m)) e,
)

commit-Commits : Commits commit
commit-Commits = record { past = commit-past; no_further = commit-no_further }

abbrev record_at : ℕ → Record
record_at n = record { partition = 0; offset = n; value = n ∷ [] }

-- the record at offset 3 is to be retried, and the one at offset 4 is passed
abbrev passes_4 : Record → ℕ → Bool × ℕ
passes_4 r n = (r.offset == 4, suc n)

abbrev from_3 : Offsets
from_3 p = 3

committed_past : (poll passes_4 commit false (record_at 3 ∷ record_at 4 ∷ []) 0 from_3).1 0 ≡ 5
unfolding poll commit maritime_test_lab.Consumer.committed handle_all
committed_past = refl

poll-ReadAgain_iff_example :
    ReadAgain (record_at 3) (poll passes_4 commit false (record_at 3 ∷ record_at 4 ∷ []) 0 from_3).1
    ↔ AllBefore (record_at 3) (record_at 4 ∷ [])
unfolding handle_all
poll-ReadAgain_iff_example =
    poll-ReadAgain_iff commit commit-Commits passes_4 (record_at 3 ∷ record_at 4 ∷ []) 0 from_3
      (record_at 3) (omega arith)

abbrev voyage_7 : VoyageCreated
voyage_7 = record {
  client_request_id = "a";
  origin = "NLRTM";
  dest = "SGSIN";
  distance_nm = pos 7;
  fees_minor = pos 150;
  version = pos 1;
}

abbrev unmarshal_voyage : List ℕ → Option VoyageCreated
unmarshal_voyage (n ∷ []) = if n == 7 then some voyage_7 else none
unmarshal_voyage _ = none

abbrev voyages : Codec VoyageCreated
voyages = record { name = "voyage"; marshal = λ v. some (7 ∷ []); unmarshal = unmarshal_voyage }

abbrev estimate_850 : EstimateReady
estimate_850 = record {
  voyage_id = "a";
  voyage_version = pos 1;
  amount_minor = pos 850;
  currency = "USD";
  calculated_at = 9;
}

abbrev unmarshal_estimate : List ℕ → Option EstimateReady
unmarshal_estimate (n ∷ []) = some estimate_850
unmarshal_estimate _ = none

abbrev estimates : Codec EstimateReady
estimates = record {
  name = "estimate";
  marshal = λ e. some (850 ∷ []);
  unmarshal = unmarshal_estimate;
}

abbrev serde : Serde
serde = ("voyage", 1) ∷ ("estimate", 2) ∷ []

abbrev rate : Money
rate = record { minor = pos 100; currency = "USD" }

abbrev answers : Ack → Pricing.Env
answers ack = record { now = λ r. 9; answer = λ r. ack }

abbrev event : Record
event = record { partition = 0; offset = 3; value = 0 ∷ 0 ∷ 0 ∷ 0 ∷ 1 ∷ 7 ∷ [] }

abbrev poison : Record
poison = record { partition = 0; offset = 4; value = 8 ∷ [] }

priced :
    handle_all
      (Pricing.handle voyages estimates serde rate (answers acked))
      (event ∷ poison ∷ [])
      []
    ≡ (
      event ∷ poison ∷ [],
      record { topic = "estimate.ready"; value = 0 ∷ 0 ∷ 0 ∷ 0 ∷ 2 ∷ 850 ∷ [] }
          ∷ record { topic = "voyage.created.dlq"; value = 8 ∷ [] }
          ∷ [],
    )
unfolding handle_all Pricing.handle Pricing.publish_estimate Pricing.to_dlq decode encode lookup
    estimate_cost mul add from_usd
priced = refl

handle_all-Grows_example :
    Grows voyages estimates serde rate
      (answers acked)
      (event ∷ poison ∷ [])
      []
      (handle_all
        (Pricing.handle voyages estimates serde rate (answers acked))
        (event ∷ poison ∷ [])
        []).1
handle_all-Grows_example =
    handle_all-Grows voyages estimates serde rate (answers acked) (event ∷ poison ∷ []) []

abbrev row : Repository.Row
row = record {
  client_request_id = "a";
  origin = "NLRTM";
  dest = "SGSIN";
  distance_nm = pos 7;
  fees_minor = pos 150;
  version = pos 1;
  estimate_minor = none;
  created_at = 5;
}

abbrev site : Site
site = record {
  state = record { db = record { voyages = row ∷ []; outbox = []; next_id = 1 }; dedupe_total = 0 };
  log = [];
  metrics = record {
    estimate_applied = 0;
    estimate_errors = 0;
    dlq_depth = 0;
    estimate_latency = [];
  };
}

abbrev calm : Applying.Env
calm = record {
  repository = λ r. record {
    now = 9;
    begin_fails = false;
    query_fails = false;
    exec_fails = false;
    commit = Repository.committed;
    read_fails = false;
    carrier = ok [];
  };
  answer = λ r. acked;
  now = λ r. 12;
}

abbrev ready : Record
ready = record { partition = 0; offset = 0; value = 0 ∷ 0 ∷ 0 ∷ 0 ∷ 2 ∷ 850 ∷ [] }

-- the statement takes effect and its answer is lost
abbrev lost : Applying.Env
lost = record calm {
  repository = λ r. record (calm.repository r) { commit = Repository.answer_lost };
}

handle_twice_example :
    Applying.handle estimates serde calm ready (Applying.handle estimates serde lost ready site).1
    ≡ (true, (Applying.handle estimates serde lost ready site).1)
unfolding decode lookup
handle_twice_example =
    handle_twice estimates serde lost calm ready site estimate_850 refl refl (λ e. cc) refl refl
