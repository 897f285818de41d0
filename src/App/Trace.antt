-- ===== src/App/Trace.antt =====
-- What a run has to keep to, told from its events alone.
use maritime_test_lab.Prelude.{
  ℕ, Bool, true, false, Option, none, some, List, [], ◌∷◌, if◌then◌else◌, ◌==◌, ◌&&◌, ◌||◌, not,
}
use maritime_test_lab.App.{
  Resource, exporter, database, pool, producer, consumer, connection, listener, http_listener,
  application, health, reflection, Routine, grpc_server, shutdown_watcher, poller,
  estimate_consumer, voyage_consumer, lag_reporter, metrics_server, Event, opened, closed, started,
  registered, propagator_set, provider_set, migrated, status_serving, graceful_stop,
}

abbrev number : Resource → ℕ
number exporter = 0
number database = 1
number pool = 2
number producer = 3
number consumer = 4
number connection = 5
number listener = 6
number http_listener = 7

abbrev pub holds : Resource → List Resource → Bool
holds r [] = false
holds r (q ∷ held) = number r == number q || holds r held

abbrev pub holds_all : List Resource → List Resource → Bool
holds_all [] held = true
holds_all (r ∷ rs) held = holds r held && holds_all rs held

-- what is open, the latest first, and what has happened
pub record Progress : Type 0 where
  pub held : List Resource
  pub propagating : Bool
  pub migrating_done : Bool
  pub application_registered : Bool
  pub health_registered : Bool
  pub serving : Bool

abbrev pub begin : Progress
begin = record {
  held = [];
  propagating = false;
  migrating_done = false;
  application_registered = false;
  health_registered = false;
  serving = false;
}

-- what a routine works with
abbrev pub uses : Routine → List Resource
uses grpc_server = listener ∷ []
uses shutdown_watcher = []
uses poller = pool ∷ producer ∷ []
uses estimate_consumer = consumer ∷ pool ∷ []
uses voyage_consumer = consumer ∷ []
uses lag_reporter = producer ∷ []
uses metrics_server = []

-- A routine finds open what it uses, after the propagator of traces was set. The server starts with its services
-- registered, which is refused afterwards. A pool is opened on migrated tables.
abbrev pub allowed : Event → Progress → Bool
allowed (opened pool) p = p.migrating_done && not (holds pool p.held)
allowed (opened r) p = not (holds r p.held)
allowed (closed r) p = elim p.held [ [] ↦ false | q ∷ held ↦ number r == number q ]
allowed (started grpc_server) p =
    holds listener p.held && (p.application_registered && (p.health_registered && p.propagating))
allowed (started g) p = holds_all (uses g) p.held && p.propagating
allowed (registered s) p = not p.serving
allowed propagator_set p = true
allowed provider_set p = holds exporter p.held
allowed migrated p = holds database p.held
allowed status_serving p = true
allowed graceful_stop p = p.serving

abbrev pub tail : List Resource → List Resource
tail [] = []
tail (r ∷ held) = held

abbrev pub happen : Event → Progress → Progress
happen (opened r) p = record p { held = r ∷ p.held }
happen (closed r) p = record p { held = tail p.held }
happen (started grpc_server) p = record p { serving = true }
happen (started g) p = p
happen (registered application) p = record p { application_registered = true }
happen (registered health) p = record p { health_registered = true }
happen (registered reflection) p = p
happen propagator_set p = record p { propagating = true }
happen provider_set p = p
happen migrated p = record p { migrating_done = true }
happen status_serving p = p
happen graceful_stop p = record p { serving = false }

-- the progress behind the events, or `none` where one of them was not allowed
unfoldable pub replay : List Event → Progress → Option Progress
replay [] p = some p
replay (e ∷ events) p = let rest = replay events (happen e p) in if allowed e p then rest else none

abbrev pub held_at_end : Option Progress → Option (List Resource)
held_at_end none = none
held_at_end (some p) = some p.held
