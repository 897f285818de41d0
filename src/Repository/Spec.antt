-- ===== src/Repository/Spec.antt =====
-- What the repository promises (`VoyageRepository` of services/voyage/domain/ports.go): a map from keys to voyages, with one effect for each operation.
pub mod Views
pub mod Refinement
pub mod Runs
use mathlib.Core.Option
use maritime_test_lab.Prelude.{
  ℕ, String, Bool, true, false, Option, none, some, List, [], ◌∷◌, Result, ok, err, if◌then◌else◌,
  str_eq, map_err, ◌≡◌, ◌≢◌,
}
use maritime_test_lab.Prelude.Int.{ℤ, pos, ltb_ℤ, eqb_ℤ}
use maritime_test_lab.Voyage.{Voyage, Error, voyage_not_found}
use maritime_test_lab.Repository.{
  State, Env, OutboxEncoder, find, scan_voyage, create, update, upsert_estimate,
}

abbrev pub Voyages : Type 0
Voyages = String → Option Voyage

pub data Operation : Type 0 where
  creates : Voyage → Operation
  updates : Voyage → Operation
  estimates : String → ℤ → ℤ → Operation

-- a new voyage starts at version 1 without an estimate
abbrev pub first : Voyage → Voyage
first v = record v { version = pos 1; estimate_minor = pos 0 }

abbrev pub or_first : Voyage → Option Voyage → Voyage
or_first v none = first v
or_first v (some w) = w

-- the higher version wins; the estimate stays
abbrev pub merged : Voyage → Voyage → Voyage
merged v w =
    if ltb_ℤ w.version v.version
    then record v { client_request_id = w.client_request_id; estimate_minor = w.estimate_minor }
    else w

abbrev pub priced : ℤ → ℤ → Voyage → Voyage
priced version amount w =
    if eqb_ℤ w.version version then record w { estimate_minor = amount } else w

abbrev pub effect : Operation → Voyages → Voyages
effect (creates v) m j = if str_eq v.client_request_id j then some (or_first v (m j)) else m j
effect (updates v) m j = if str_eq v.client_request_id j then Option.map (merged v) (m j) else m j
effect (estimates id version amount) m j =
    if str_eq id j then Option.map (priced version amount) (m j) else m j

abbrev pub found_or_not : Option Voyage → Result Error (Option Voyage)
found_or_not none = err voyage_not_found
found_or_not (some w) = ok (some w)

-- what the caller of an operation is told; an estimate is applied without an answer
abbrev pub reply : Operation → Voyages → Result Error (Option Voyage)
reply (creates v) m = ok (some (or_first v (m v.client_request_id)))
reply (updates v) m = found_or_not (Option.map (merged v) (m v.client_request_id))
reply (estimates id version amount) m = ok none

-- what the tables say of a key
abbrev pub view : State → Voyages
view s j = Option.map scan_voyage (find j s.voyages)

abbrev pub with_voyage : Result Error Voyage → Result Error (Option Voyage)
with_voyage (ok v) = ok (some v)
with_voyage (err e) = err e

abbrev pub without : Result Error (Option ℕ) → Result Error (Option Voyage)
without (ok created_at) = ok none
without (err e) = err e

-- the operations as the repository runs them
module _ (encode : OutboxEncoder) where
  abbrev pub perform : Env → Operation → State → Result Error (Option Voyage) × State
  perform env (creates v) s = (with_voyage (create encode env v s).0, (create encode env v s).1)
  perform env (updates v) s = (with_voyage (update env v s).0, (update env v s).1)
  perform env (estimates id version amount) s = (
    without (upsert_estimate env id version amount s).0,
    (upsert_estimate env id version amount s).1,
  )

  abbrev pub perform_all : List (Env × Operation) → State → State
  perform_all [] s = s
  perform_all ((env, op) ∷ calls) s = perform_all calls (perform env op s).1
