-- ===== src/Outbox/TraceContext.antt =====
-- The trace of a request in the outbox: `injectTraceCarrier` of services/voyage/adapters/postgres/repository.go and `rowContext` of
-- services/voyage/adapters/kafka/poller.go. OpenTelemetry's propagator, encoding/json and the text that the JSONB column gives back for
-- the text that was written are parameters.
use maritime_test_lab.Prelude.{
  ℕ, String, Option, none, some, List, [], ◌∷◌, ◌++◌, Result, ok, err, ◌≡◌, ◌≢◌, refl, arith, sym,
  ◌∙◌, ap, Option-cases, inl, inr, ◌⊎◌,
}
use maritime_test_lab.Voyage.{Voyage, Error, infra}
use maritime_test_lab.Repository.{State, OutboxRow, Env, OutboxEncoder, create}
use maritime_test_lab.Repository.Creates.{create_atomic, event_row}

-- the headers of a trace context
abbrev pub Carrier : Type 0
Carrier = List (String × String)

-- what the packages give to the two functions
pub record Tracing (Context : Type 0) : Type 0 where
  pub inject : Context → Carrier
  pub extract : Context → Carrier → Context
  pub marshal : Carrier → Option (List ℕ)
  pub unmarshal : List ℕ → Option Carrier
  pub jsonb : List ℕ → List ℕ

module _ {Context : Type 0} (tracing : Tracing Context) where
  unfoldable pub inject_trace_carrier : Context → Result Error (List ℕ)
  inject_trace_carrier ctx = elim (tracing.marshal (tracing.inject ctx)) [
    | none ↦ err infra
    | some text ↦ ok text
  ]

  -- A row without a carrier, or with one that is no JSON of a carrier, is published under the poller's own context.
  unfoldable pub row_context : Context → List ℕ → Context
  row_context ctx [] = ctx
  row_context ctx (b ∷ bytes) = elim (tracing.unmarshal (b ∷ bytes)) [
    | none ↦ ctx
    | some carrier ↦ tracing.extract ctx carrier
  ]

  -- the context under which `Flush` publishes a row
  unfoldable pub publish_context : Context → OutboxRow → Context
  unfolding row_context
  publish_context ctx row = row_context ctx (tracing.jsonb row.trace_carrier)

  -- What the packages promise of one request: a carrier's JSON is a carrier's again, also behind the column, and what is extracted from the
  -- carrier of the request continues its trace.
  pub record Carries {Trace : Type 0} (trace : Context → Trace) (request : Context) : Type 0 where
    pub reads :
        (text : List ℕ)
        → tracing.marshal (tracing.inject request) ≡ some text
        → tracing.unmarshal (tracing.jsonb text) ≡ some (tracing.inject request)
    pub written :
        (text : List ℕ)
        → tracing.marshal (tracing.inject request) ≡ some text
        → tracing.jsonb text ≢ []
    pub continues :
        (ctx : Context) → trace (tracing.extract ctx (tracing.inject request)) ≡ trace request

  extracted :
      (ctx : Context) (bytes : List ℕ) (carrier : Carrier)
      → bytes ≢ []
      → tracing.unmarshal bytes ≡ some carrier
      → row_context ctx bytes ≡ tracing.extract ctx carrier
  unfolding row_context
  extracted ctx [] carrier full e = absurd (full refl)
  extracted ctx (b ∷ bytes) carrier full e = rw (e, row_context) refl

  row_traced :
      {Trace : Type 0} (trace : Context → Trace) (request ctx : Context) (row : OutboxRow)
      → Carries trace request
      → inject_trace_carrier request ≡ ok row.trace_carrier
      → trace (publish_context ctx row) ≡ trace request
  unfolding inject_trace_carrier publish_context
  row_traced trace request ctx row laws e =
      elim (Option-cases (tracing.marshal (tracing.inject request))) [
        | inl h ↦ ground arith
        | inr (text, h) ↦
            let same : text ≡ row.trace_carrier = ground arith in
            let h' : tracing.marshal (tracing.inject request) ≡ some row.trace_carrier =
              h ∙ ap (λ t. some t) same in
            ap trace (
              extracted ctx (tracing.jsonb row.trace_carrier) (tracing.inject request)
                (laws.written row.trace_carrier h') (laws.reads row.trace_carrier h'))
            ∙ laws.continues ctx
      ]

  -- A creation that adds an event adds it with the trace of its request: whenever the poller publishes the row, and under whatever context of its own, the context of the
  -- record continues the trace of the request, if the packages carry it. Otherwise the creation leaves the outbox as it was.
  pub create-traced :
      {Trace : Type 0} (trace : Context → Trace) (request ctx : Context) (encode : OutboxEncoder)
      (env : Env) (v : Voyage) (s : State)
      → Carries trace request
      → env.carrier ≡ inject_trace_carrier request
      → ((create encode env v s).1.outbox ≡ s.outbox)
        ⊎ ((row : OutboxRow) × ((create encode env v s).1.outbox ≡ s.outbox ++ row ∷ [])
            × (trace (publish_context ctx row) ≡ trace request))
  create-traced trace request ctx encode env v s laws e = elim (create_atomic encode env v s) [
    | inl u ↦ inl u.outbox
    | inr c ↦ inr (
      event_row s.next_id c.topic c.payload c.carrier,
      c.outbox,
      row_traced trace request ctx (event_row s.next_id c.topic c.payload c.carrier) laws
          (sym e ∙ c.injected),
    )
  ]
