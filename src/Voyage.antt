-- ===== src/Voyage.antt =====
-- services/voyage/domain: the voyage, its validation, and the quote over the Estimator port.
use maritime_test_lab.Prelude.{String, Option, none, some, Result, err, if◌then◌else◌, str_eq, ◌||◌}
use maritime_test_lab.Prelude.Int.{ℤ, pos, ltb_ℤ}
use maritime_test_lab.Money.{Money}

-- The sentinels of voyage.go and ports.go; `infra` is any other error, which an adapter met.
pub data Error : Type 0 where
  missing_client_request_id missing_port negative_distance voyage_not_found estimator_unavailable :
      Error
  infra : Error

pub record Voyage : Type 0 where
  pub client_request_id : String
  pub origin : String
  pub dest : String
  pub distance_nm : ℤ
  pub fees_minor : ℤ
  pub version : ℤ
  pub estimate_minor : ℤ

-- `none` is Go's nil error.
unfoldable pub validate : Voyage → Option Error
validate v =
    if str_eq v.client_request_id ""
    then some missing_client_request_id
    else if str_eq v.origin "" || str_eq v.dest ""
    then some missing_port
    else if ltb_ℤ v.distance_nm (pos 0)
    then some negative_distance
    else none

-- the Estimator port
abbrev pub Estimator : Type 0
Estimator = Voyage → Result Error Money

unfoldable pub quote : Voyage → Estimator → Result Error Money
quote v est = elim (validate v) [ some e ↦ err e | none ↦ est v ]
