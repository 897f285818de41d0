-- ===== src/EventReg.antt =====
-- internal/eventreg/eventreg.go. The texts of the schemas are the .avsc files beside schemas/schemas.go, and a Go type is told apart by its name.
pub mod Laws
use maritime_test_lab.Prelude.{String, List, [], ◌∷◌}
use maritime_test_lab.Serde.{Registration}
use maritime_test_lab.Topic

-- the embedded schemas
pub record Schemas : Type 0 where
  pub voyage_created : String
  pub estimate_ready : String

abbrev pub voyage_created_type : String
voyage_created_type = "avro.VoyageCreated"

abbrev pub estimate_ready_type : String
estimate_ready_type = "avro.EstimateReady"

unfoldable pub all : Schemas → List Registration
all schemas =
    record {
      subject = Topic.voyage_created_subject;
      schema = schemas.voyage_created;
      example = voyage_created_type;
    }
    ∷ record {
      subject = Topic.estimate_ready_subject;
      schema = schemas.estimate_ready;
      example = estimate_ready_type;
    }
    ∷ []
