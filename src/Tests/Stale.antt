-- ===== src/Tests/Stale.antt =====
-- A voyage is priced, and then updated to a higher version.
use maritime_test_lab.Prelude.{some}
use maritime_test_lab.Prelude.Int.{pos}
use maritime_test_lab.Serde
use maritime_test_lab.Outbox
use maritime_test_lab.Voyage.{Voyage}
use maritime_test_lab.Repository
use maritime_test_lab.Repository.{Row}
use maritime_test_lab.VoyageService.Consumer.{Site}
use maritime_test_lab.VoyageService.Consumer
use maritime_test_lab.Tests.System.{calm, sailing, applied}

abbrev farther : Voyage
farther = record sailing { distance_nm = pos 9; version = pos 2 }

abbrev moved : Site
moved = record applied { state = (Repository.update calm farther applied.state).1 }

-- the row is at version 2, beside the price of version 1
abbrev moved_row : Row
moved_row = record {
  client_request_id = "a";
  origin = "NLRTM";
  dest = "SGSIN";
  distance_nm = pos 9;
  fees_minor = pos 150;
  version = pos 2;
  estimate_minor = some (pos 850);
  created_at = 5;
}
