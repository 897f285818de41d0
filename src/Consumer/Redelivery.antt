-- ===== src/Consumer/Redelivery.antt =====
-- Which records a consumer reads again after a restart.
use mathlib.Core.List.{Mem, not-mem-nil}
use maritime_test_lab.Prelude.{◌≤◌, ◌<◌, Bool, false, List, [], ◌∷◌, ◌≡◌, ◌↔◌, arith, ap}
use maritime_test_lab.Kafka.{Record, Offsets, Commits}
use maritime_test_lab.Consumer.{handle_all, poll, committed}

-- the record is not yet behind the committed offset of its partition
abbrev pub ReadAgain : Record → Offsets → Type 0
ReadAgain r offsets = offsets r.partition ≤ r.offset

abbrev pub AllBefore : Record → List Record → Type 0
AllBefore r rs = (q : Record) → Mem q rs → q.partition ≡ r.partition → q.offset < r.offset

module _ (commit : List Record → Offsets → Offsets) (law : Commits commit) where
  committed-ReadAgain_iff :
      (r : Record) (offsets : Offsets) (rs : List Record)
      → ReadAgain r offsets
      → ReadAgain r (committed commit false offsets rs) ↔ AllBefore r rs
  unfolding committed
  committed-ReadAgain_iff r offsets [] due = (λ again q m e. absurd (not-mem-nil m), λ before. due)
  committed-ReadAgain_iff r offsets (q ∷ rs) due = (
    λ again q' m e. omega (arith, law.past (q ∷ rs) offsets q' m, ap (commit (q ∷ rs) offsets) e),
    λ before. law.no_further (q ∷ rs) offsets r.partition r.offset before due,
  )

  module _ {S : Type 0} (handle : Record → S → Bool × S) where
    -- After a round whose commit succeeds, a record that was due before it is read again exactly when
    -- every record of its partition that `handle` passed for commit stands before it. So a record that
    -- was to be retried is lost when a later one of its partition is passed in the same round.
    pub poll-ReadAgain_iff :
        (batch : List Record) (s : S) (offsets : Offsets) (r : Record)
        → ReadAgain r offsets
        → ReadAgain r (poll handle commit false batch s offsets).1
          ↔ AllBefore r (handle_all handle batch s).0
    unfolding poll
    poll-ReadAgain_iff batch s offsets r due =
        committed-ReadAgain_iff r offsets (handle_all handle batch s).0 due
