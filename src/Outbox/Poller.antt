-- ===== src/Outbox/Poller.antt =====
-- The loop of the poller (`Run` of services/voyage/adapters/kafka/poller.go): a pass for each tick.
pub mod Laws
use maritime_test_lab.Prelude.{ℕ, Option, none, some, List, [], ◌∷◌}
use maritime_test_lab.Voyage.{Error}
use maritime_test_lab.Outbox.{PollEnv, Relay, flush}

abbrev pub logged : Option Error → List Error → List Error
logged none errors = errors
logged (some e) errors = e ∷ errors

-- the errors that were logged, and the relay when the context is cancelled, by what happens in the pass of each tick
unfoldable pub run : List PollEnv → Relay → List Error × Relay
unfolding flush
run [] s = ([], s)
run (env ∷ ticks) s =
    let (e, t) = flush env s in let (errors, u) = run ticks t in (logged e errors, u)
