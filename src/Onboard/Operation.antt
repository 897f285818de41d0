-- ===== src/Onboard/Operation.antt =====
-- clients/onboard-sync/domain: operation.go and merge.go.
use maritime_test_lab.Prelude.{String, if◌then◌else◌}
use maritime_test_lab.Prelude.Int.{ℤ, ltb_ℤ}

abbrev pub Kind : Type 0
Kind = String

abbrev pub kind_create : Kind
kind_create = "create"

abbrev pub kind_update : Kind
kind_update = "update"

pub record Operation : Type 0 where
  pub client_request_id : String
  pub kind : Kind
  pub origin : String
  pub dest : String
  pub distance_nm : ℤ
  pub fees_minor : ℤ
  pub version : ℤ

abbrev pub higher_version_wins : Operation → Operation → Operation
higher_version_wins current incoming =
    if ltb_ℤ current.version incoming.version then incoming else current
