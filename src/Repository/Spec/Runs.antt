-- ===== src/Repository/Spec/Runs.antt =====
-- Any calls, one after another, against the map.
use maritime_test_lab.Prelude.{Option, List, [], ◌∷◌, ok, ◌≡◌, ◌≢◌, refl, ◌∙◌, ap, inl, inr}
use maritime_test_lab.Voyage.{Voyage}
use maritime_test_lab.Repository.{State, Env, OutboxEncoder}
use maritime_test_lab.Repository.Spec.{
  Voyages, Operation, effect, reply, view, perform, perform_all,
}
use maritime_test_lab.Repository.Spec.Refinement.{perform-Outcome}

abbrev pub effects : List Operation → Voyages → Voyages
effects [] m = m
effects (op ∷ ops) m = effects ops (effect op m)

module _ (encode : OutboxEncoder) where
  -- The operations are those calls, in their order, that took effect: each call that was answered, with the answer of the map, and some of those that
  -- failed.
  pub data Explains : List (Env × Operation) → List Operation → State → Type 0 where
    ended : {s : State} → Explains [] [] s
    took :
        {calls : List (Env × Operation)} {ops : List Operation} {s : State} (env : Env)
        (op : Operation)
        → ((x : Option Voyage) → (perform encode env op s).0 ≡ ok x → reply op (view s) ≡ ok x)
        → Explains calls ops (perform encode env op s).1
        → Explains ((env, op) ∷ calls) (op ∷ ops) s
    failed :
        {calls : List (Env × Operation)} {ops : List Operation} {s : State} (env : Env)
        (op : Operation)
        → ((x : Option Voyage) → (perform encode env op s).0 ≢ ok x)
        → Explains calls ops (perform encode env op s).1
        → Explains ((env, op) ∷ calls) ops s

  -- Whatever calls follow each other, in whatever environments, what the tables say in the end is the effects on the map of some of the calls in their order, among them all
  -- that were answered without an error, and each of these with the map's reply.
  pub perform_all-explained :
      (calls : List (Env × Operation)) (s : State)
      → (ops : List Operation) × Explains calls ops s
        × (view (perform_all encode calls s) ≡ effects ops (view s))
  perform_all-explained [] s = ([], Explains.ended, refl)
  perform_all-explained ((env, op) ∷ calls) s =
      let (ops, explained, same) = perform_all-explained calls (perform encode env op s).1 in
      elim (perform-Outcome encode env op s) [
        | inl (no_answer, unmoved) ↦
            (ops, Explains.failed env op no_answer explained, same ∙ ap (effects ops) unmoved)
        | inr (moved, replied) ↦
            (op ∷ ops, Explains.took env op replied explained, same ∙ ap (effects ops) moved)
      ]
