-- ===== src/Tests/Repository.antt =====
-- services/voyage/adapters/postgres/repository.go on small inputs.
use mathlib.Core.List.Perm
use mathlib.Core.Logic.Or
use mathlib.Core.List.{mem-cons, mem-singleton}
use maritime_test_lab.Prelude.{
  String, false, none, some, [], ◌∷◌, ok, ◌≡◌, ◌≢◌, ◌⊎◌, refl, sym, ap, ◌∙◌, List,
}
use maritime_test_lab.Prelude.Int.{pos}
use maritime_test_lab.Voyage.{Voyage}
use maritime_test_lab.Repository.{
  Env, State, committed, answer_lost, OutboxEncoder, create, update, upsert_estimate, empty, find,
  scan_voyage, rolled_back,
}
use maritime_test_lab.Repository.Creates.{Untouched, Created, create_atomic}
use maritime_test_lab.Repository.Updates.{update-merge, write_all, write_all_converges, AllAgree}
use maritime_test_lab.Repository.Estimates.{upsert_estimate-exact}
use text.Mathlib.TextEquality.{IsScalar-prop}
use maritime_test_lab.Repository.Spec.{Operation, view, perform_all}
use maritime_test_lab.Repository.Spec.Runs.{Explains, effects, perform_all-explained}

abbrev calm : Env
calm = record {
  now = 5;
  begin_fails = false;
  query_fails = false;
  exec_fails = false;
  commit = committed;
  read_fails = false;
  carrier = ok [];
}

abbrev encode : OutboxEncoder
encode v = ok ("voyage.created", 0 ∷ [])

abbrev sailing : Voyage
sailing = record {
  client_request_id = "a";
  origin = "NLRTM";
  dest = "SGSIN";
  distance_nm = pos 10;
  fees_minor = pos 150;
  version = pos 0;
  estimate_minor = pos 0;
}

abbrev stored : Voyage
stored = record sailing { version = pos 1 }

abbrev edited : Voyage
edited = record sailing { dest = "USNYC"; version = pos 3 }

created : create encode calm sailing empty ≡ (
  ok stored,
  record {
    db = record {
      voyages =
          record {
            client_request_id = "a";
            origin = "NLRTM";
            dest = "SGSIN";
            distance_nm = pos 10;
            fees_minor = pos 150;
            version = pos 1;
            estimate_minor = none;
            created_at = 5;
          }
          ∷ [];
      outbox =
          record {
            id = 1;
            topic = "voyage.created";
            payload = 0 ∷ [];
            trace_carrier = [];
            published_at = none;
          }
          ∷ [];
      next_id = 2;
    };
    dedupe_total = 0;
  },
)
unfolding create find
created = refl

abbrev sailed : State
sailed = record {
  db = record {
    voyages =
        record {
          client_request_id = "a";
          origin = "NLRTM";
          dest = "SGSIN";
          distance_nm = pos 10;
          fees_minor = pos 150;
          version = pos 1;
          estimate_minor = some (pos 1150);
          created_at = 5;
        }
        ∷ [];
    outbox = [];
    next_id = 2;
  };
  dedupe_total = 0;
}

create_atomic_example :
    Untouched encode empty (create encode (record calm { commit = answer_lost }) sailing empty).1
    ⊎ Created encode 5 calm.carrier sailing empty
        (create encode (record calm { commit = answer_lost }) sailing empty).1
create_atomic_example = create_atomic encode (record calm { commit = answer_lost }) sailing empty

update-merge_example :
    ((update calm edited sailed).0 ≡ ok (record edited { estimate_minor = pos 1150 }))
    × ((find "a" (update calm edited sailed).1.voyages)
        ≡ some (record {
          client_request_id = "a";
          origin = "NLRTM";
          dest = "USNYC";
          distance_nm = pos 10;
          fees_minor = pos 150;
          version = pos 3;
          estimate_minor = some (pos 1150);
          created_at = 5;
        }))
    × (◌≢◌ {A = String} "a" "b" → find "b" (update calm edited sailed).1.voyages ≡ none)
    × ((update calm edited sailed).1.outbox ≡ [])
unfolding find scan_voyage
update-merge_example = update-merge calm edited sailed "b" refl refl refl

Voyage-set : IsSet Voyage
Voyage-set = hlevel IsScalar-prop

-- two writes to one voyage at different versions
apart : (v w : Voyage) → v ≡ edited → w ≡ stored → ¬ (v.version ≡ w.version)
apart v w p q e = cc (e, ap (λ (u : Voyage). u.version) p, ap (λ (u : Voyage). u.version) q)

agree : AllAgree (edited ∷ stored ∷ [])
agree v w m n e f =
    Or.elim (Voyage-set v w) (mem-cons.0 m)
      (λ p.
        Or.elim (Voyage-set v w) (mem-cons.0 n) (λ q. p ∙ sym q)
          (λ q. absurd (apart v w p ((mem-singleton Voyage-set).0 q) f)))
      (λ p.
        Or.elim (Voyage-set v w) (mem-cons.0 n)
          (λ q. absurd (apart w v q ((mem-singleton Voyage-set).0 p) (sym f)))
          (λ q. (mem-singleton Voyage-set).0 p ∙ sym ((mem-singleton Voyage-set).0 q)))

write_all_converges_example :
    write_all calm (edited ∷ stored ∷ []) sailed ≡ write_all calm (stored ∷ edited ∷ []) sailed
write_all_converges_example = write_all_converges calm sailed (Perm.swap stored edited []) agree

upsert_estimate-exact_example :
    ((upsert_estimate calm "a" (pos 1) (pos 99) sailed).0 ≡ ok (some 5))
    × (find "a" (upsert_estimate calm "a" (pos 1) (pos 99) sailed).1.voyages
        ≡ some (record {
          client_request_id = "a";
          origin = "NLRTM";
          dest = "SGSIN";
          distance_nm = pos 10;
          fees_minor = pos 150;
          version = pos 1;
          estimate_minor = some (pos 99);
          created_at = 5;
        }))
    × (◌≢◌ {A = String} "a" "b"
        → find "b" (upsert_estimate calm "a" (pos 1) (pos 99) sailed).1.voyages ≡ none)
    × ((upsert_estimate calm "a" (pos 1) (pos 99) sailed).1.outbox ≡ [])
unfolding find
upsert_estimate-exact_example =
    upsert_estimate-exact calm "a" (pos 1) (pos 99) sailed refl "b" refl (refl, tt)

-- a creation whose commit is lost, an update that is rolled back, and one that lands
abbrev calls : List (Env × Operation)
calls =
    (record calm { commit = answer_lost }, Operation.creates sailing)
    ∷ (record calm { commit = rolled_back }, Operation.updates edited)
    ∷ (calm, Operation.updates edited)
    ∷ []

perform_all-explained_example :
    (ops : List Operation) × Explains encode calls ops empty
    × (view (perform_all encode calls empty) ≡ effects ops (view empty))
perform_all-explained_example = perform_all-explained encode calls empty
