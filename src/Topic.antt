-- ===== src/Topic.antt =====
-- schemas/schemas.go: the topics, and the subjects of the schema registry.
use maritime_test_lab.Prelude.{String}

abbrev pub voyage_created : String
voyage_created = "voyage.created"

abbrev pub estimate_ready : String
estimate_ready = "estimate.ready"

abbrev pub voyage_created_dlq : String
voyage_created_dlq = "voyage.created.dlq"

abbrev pub estimate_ready_dlq : String
estimate_ready_dlq = "estimate.ready.dlq"

abbrev pub voyage_created_subject : String
voyage_created_subject = "voyage.created-value"

abbrev pub estimate_ready_subject : String
estimate_ready_subject = "estimate.ready-value"
