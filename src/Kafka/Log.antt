-- ===== src/Kafka/Log.antt =====
-- Where a record stands in a log.
use mathlib.Core.List.{Mem, eq-or-mem_of_mem-cons, Mem-prop, append_assoc, not-mem-nil}
use mathlib.Core.Logic.Or
use native.Mathlib.Decide.{ℕ_discrete}
use maritime_test_lab.Prelude.{
  String, List, [], ◌∷◌, ◌++◌, ◌≡◌, refl, sym, ◌∙◌, ap, Bool-cases, inl, inr, str_eq, eq_iff, false,
  true,
}
use maritime_test_lab.Kafka.{Produced}

String-discrete : Discrete String
String-discrete a b = elim (Bool-cases (str_eq a b)) [
  | inl e ↦ yes ((eq_iff a b).0 e)
  | inr e ↦ no (λ h. let x : false ≡ true = sym e ∙ (eq_iff a b).1 h in cc)
]

pub Produced-discrete : Discrete Produced
Produced-discrete = hlevel (ℕ_discrete, String-discrete)

-- a place at which the log has the record
pub record Holds (p : Produced) (log : List Produced) : Type 0 where
  pub before : List Produced
  pub rest : List Produced
  pub at : log ≡ before ++ p ∷ rest

pub Holds-append : (p : Produced) (log more : List Produced) → Holds p log → Holds p (log ++ more)
Holds-append p log more h = record {
  before = h.before;
  rest = h.rest ++ more;
  at = ap (λ l. l ++ more) h.at ∙ append_assoc h.before (p ∷ h.rest) more;
}

pub Holds-last : (p : Produced) (log : List Produced) → Holds p (log ++ p ∷ [])
Holds-last p log = record { before = log; rest = []; at = refl }

pub mem-Holds : (p : Produced) (log : List Produced) → Mem p log → Holds p log
mem-Holds p [] m = absurd (not-mem-nil m)
mem-Holds p (q ∷ log) m = elim (Produced-discrete p q) [
  | yes e ↦ record { before = []; rest = log; at = rw e refl }
  | no n ↦
      let h =
        mem-Holds p log (Or.elim Mem-prop (eq-or-mem_of_mem-cons m) (λ e. absurd (n e)) (λ k. k)) in
      record { before = q ∷ h.before; rest = h.rest; at = ap (λ l. q ∷ l) h.at }
]
