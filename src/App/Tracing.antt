-- ===== src/App/Tracing.antt =====
-- internal/tracing/tracing.go. The shutdown of a provider shuts its exporter down; a program without an endpoint is given one
-- that does nothing.
use maritime_test_lab.Prelude.{
  String, Bool, some, List, [], ◌∷◌, ◌++◌, Result, ok, err, if◌then◌else◌, str_eq,
}
use maritime_test_lab.App.{
  Event, opened, closed, propagator_set, provider_set, exporter, Error, trace_exporter,
  trace_resource, Run,
}

pub record Env : Type 0 where
  pub exporter_fails : Bool
  pub resource_fails : Bool

pub data Shutdown : Type 0 where
  no_op provider : Shutdown

unfoldable pub init : Env → String → List Event × Result Error Shutdown
init env endpoint =
    if str_eq endpoint ""
    then (propagator_set ∷ [], ok no_op)
    else if env.exporter_fails
    then (propagator_set ∷ [], err trace_exporter)
    else if env.resource_fails
    then (propagator_set ∷ opened exporter ∷ [], err trace_resource)
    else (propagator_set ∷ opened exporter ∷ provider_set ∷ [], ok provider)

abbrev pub shutdown : Shutdown → List Event
shutdown no_op = []
shutdown provider = closed exporter ∷ []

-- the rest of a `Run` that defers the shutdown
abbrev pub traced : List Event × Result Error Shutdown → Run → Run
traced (events, err e) rest = (events, some e)
traced (events, ok s) (trace, e) = (events ++ trace ++ shutdown s, e)
