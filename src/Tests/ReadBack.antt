-- ===== src/Tests/ReadBack.antt =====
-- A device posts a creation, and a query reads the voyage back.
use maritime_test_lab.Prelude.{Option, some, [], ◌∷◌, Result, ok, err, ◌≡◌, refl, ◌∙◌, ap, arith}
use maritime_test_lab.Prelude.Int.{wrap}
use maritime_test_lab.Repository.{State, empty}
use maritime_test_lab.Repository
use maritime_test_lab.Voyage.{validate}
use maritime_test_lab.VoyageService.Server
use maritime_test_lab.Gateway.Resolvers.{Voyage, VoyageClient}
use maritime_test_lab.Gateway.Resolvers
use maritime_test_lab.Gateway.Laws.{over}
use maritime_test_lab.Gateway.Schema.Object.{
  Marshaler, null, object, no_entries, entry, marshal_optional_voyage,
}
use maritime_test_lab.Gateway.Schema.Query.{
  QueryField, Answer, query, query_values, query_value, query_voyage, query_voyage_args,
}
use maritime_test_lab.Gateway.Schema.Root.{mutate}
use maritime_test_lab.Gateway.Schema.ReadBack.{Answers, voyage_field}
use maritime_test_lab.System.Acknowledged.{mutation}
use maritime_test_lab.System.Posted.{Fits, posted, posted_field, created_leaves}
use maritime_test_lab.System.Posted.Responses.{Plain, shown_voyage}
use maritime_test_lab.System.Posted.ReadBack.{posted-query}
use maritime_test_lab.Tests.Gateway.{calm, encode, offline}
use maritime_test_lab.Tests.Onboard.{created}
use maritime_test_lab.Tests.Sync.{
  scalars, wire, wire-Reads, runtime, runtime-Resolves, or_null, settled, Raw,
}

runtime-Plain : Plain runtime
runtime-Plain = record { marshals = λ a m x e. ap or_null e }

settled-ok :
    {A S : Type 0} (r : Result Resolvers.Error A × S) (m : A → Option Marshaler) (a : A)
    (x : Marshaler)
    → r.0 ≡ ok a
    → m a ≡ some x
    → (settled r m).0 ≡ (x, [])
settled-ok (ok b, s) m a x e k = let same : b ≡ a = cc in ap (λ r. (or_null r, [])) (ap m same ∙ k)
settled-ok (err y, s) m a x e k = cc

runtime-Answers : Answers runtime
runtime-Answers = record { answers = λ i run m s. settled-ok (run i s) m }

abbrev nothing : QueryField Raw → Answer
nothing f = (null, [])

abbrev client : VoyageClient State
client = over encode offline calm

-- before anything is created, the query answers null, without an error
unknown :
    query scalars runtime client nothing
      ((voyage_field "voyage" (wire.text "a") created_leaves, empty) ∷ [])
    ≡ some (object (entry "voyage" null no_entries), [])
unfolding query query_values query_value query_voyage query_voyage_args marshal_optional_voyage
    Resolvers.voyage Server.get_voyage Repository.get Repository.find
unknown = refl

created-Fits : Fits created
created-Fits = record { distance_nm = omega arith; fees_minor = omega arith; version = omega arith }

posted-query_example :
    (v : Voyage) × ((mutation client created empty).0 ≡ ok v)
    × (query scalars runtime client nothing (
          (
            voyage_field "voyage" (wire.text "a") created_leaves,
            (posted scalars wire runtime client created empty).1,
          )
          ∷ [])
        ≡ some (object (entry "voyage" (shown_voyage runtime runtime-Plain v) no_entries), []))
unfolding mutation posted_field mutate Server.create_voyage validate wrap Repository.create
    Repository.find
posted-query_example =
    posted-query scalars wire wire-Reads runtime runtime-Resolves runtime-Plain runtime-Answers
      nothing encode offline calm calm "voyage" created empty created-Fits refl refl
