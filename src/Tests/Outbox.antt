-- ===== src/Tests/Outbox.antt =====
-- services/voyage/adapters/kafka/poller.go on small inputs.
use maritime_test_lab.Prelude.{
  ℕ, false, none, some, [], ◌∷◌, ◌≡◌, refl, arith, ◌==◌, if◌then◌else◌, ok, ◌⊎◌,
}
use maritime_test_lab.Voyage.{infra, Voyage}
use maritime_test_lab.Repository.{
  Commit, rolled_back, OutboxRow, Env, State, committed, OutboxEncoder, create, empty,
}
use maritime_test_lab.Outbox.{
  PollEnv, Relay, produced, flush, unpublished, publish_all, where_unpublished, order_by_id, take,
  settle, mark_published,
}
use maritime_test_lab.Outbox.Delivery.{Healthy}
use maritime_test_lab.Outbox.Safety.{Logged, Relays, flush_safe}
use maritime_test_lab.Kafka.{acked, refused}
use maritime_test_lab.Outbox.Poller.{run}
use maritime_test_lab.Outbox.Poller.Laws.{run_delivers, Delivered, Drained}
use maritime_test_lab.Outbox.TraceContext.{
  Carrier, Tracing, Carries, inject_trace_carrier, publish_context, create-traced,
}
use maritime_test_lab.Prelude.Int.{pos}

abbrev row : ℕ → OutboxRow
row n = record {
  id = n;
  topic = "voyage.created";
  payload = n ∷ [];
  trace_carrier = [];
  published_at = none;
}

abbrev relay : Relay
relay = record {
  db = record { voyages = []; outbox = row 1 ∷ row 2 ∷ row 4 ∷ []; next_id = 5 };
  log = [];
}

abbrev healthy : PollEnv
healthy = record { now = 9; query_fails = false; ack = λ n. acked; mark = λ n. committed }

-- row 1 is refused, the stamp of row 2 fails after its acknowledgement
abbrev faulty : PollEnv
faulty = record {
  now = 9;
  query_fails = false;
  ack = λ n. if n == 1 then refused else acked;
  mark = λ n. if n == 2 then rolled_back else committed;
}

faulty_pass : flush faulty relay ≡ (some infra, record relay { log = produced (row 2) ∷ [] })
unfolding flush unpublished publish_all where_unpublished order_by_id take settle
faulty_pass = refl

-- the stamp of row 1 takes effect, and its answer is lost
abbrev unheard : PollEnv
unheard = record healthy { mark = λ n. Commit.answer_lost }

unheard_pass : flush unheard relay ≡ (
  some infra,
  record {
    db = record relay.db { outbox = record (row 1) { published_at = some 9 } ∷ row 2 ∷ row 4 ∷ [] };
    log = produced (row 1) ∷ [];
  },
)
unfolding flush unpublished publish_all where_unpublished order_by_id take settle mark_published
unheard_pass = refl

healthy-Healthy : Healthy healthy
healthy-Healthy = record { query = refl; ack = λ n. refl; mark = λ n. refl }

relay-Logged : Logged relay.log relay.db.outbox
relay-Logged = (λ e. cc, (λ e. cc, (λ e. cc, tt)))

flush_safe_example :
    Logged (flush faulty relay).1.log (flush faulty relay).1.db.outbox
    × Relays relay (flush faulty relay).1
flush_safe_example = flush_safe faulty relay 1 5 (omega arith) relay-Logged

run_delivers_example :
    let t : Relay = (run (faulty ∷ healthy ∷ []) relay).1 in
    Drained (run (faulty ∷ []) relay).1 t × Delivered t.log relay.db.outbox × Relays relay t
unfolding where_unpublished
run_delivers_example =
    run_delivers (faulty ∷ []) (healthy ∷ []) relay 1 5 (healthy-Healthy, tt) (omega arith)
      relay-Logged (omega arith)

-- a trace is a number; the carrier has it as the length of its one header
abbrev carrier_of : ℕ → Carrier
carrier_of n = if n == 4 then ("traceparent", "4444") ∷ [] else []

abbrev traces : Tracing ℕ
traces = record {
  inject = carrier_of;
  extract = λ ctx c. elim c [ [] ↦ ctx | h ∷ rest ↦ 4 ];
  marshal = λ c. elim c [ [] ↦ some (9 ∷ []) | h ∷ rest ↦ some (4 ∷ []) ];
  unmarshal = λ bytes. elim bytes [ [] ↦ none | b ∷ rest ↦ some (carrier_of b) ];
  jsonb = λ bytes. bytes;
}

abbrev traced_env : Env
traced_env = record {
  now = 5;
  begin_fails = false;
  query_fails = false;
  exec_fails = false;
  commit = committed;
  read_fails = false;
  carrier = ok (4 ∷ []);
}

abbrev sailing : Voyage
sailing = record {
  client_request_id = "a";
  origin = "NLRTM";
  dest = "SGSIN";
  distance_nm = pos 10;
  fees_minor = pos 150;
  version = pos 0;
  estimate_minor = pos 0;
}

abbrev encode : OutboxEncoder
encode v = ok ("voyage.created", 0 ∷ [])

traces-Carries : Carries traces (λ n. n) 4
traces-Carries = record {
  reads = λ text e. ground arith;
  written = λ text e h. cc;
  continues = λ ctx. refl;
}

create-traced_example :
    let t : State = (create encode traced_env sailing empty).1 in
    (t.outbox ≡ [])
    ⊎ ((row : OutboxRow) × (t.outbox ≡ row ∷ []) × (publish_context traces 0 row ≡ 4))
unfolding inject_trace_carrier
create-traced_example =
    create-traced traces (λ n. n) 4 0 encode traced_env sailing empty traces-Carries refl
