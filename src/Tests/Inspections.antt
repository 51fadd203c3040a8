-- ===== src/Tests/Inspections.antt =====
-- An inspection of the small project.
use ops_incident_collector.Prelude.{some, none, [], ◌∷◌, refl}
use ops_incident_collector.Core.Models.{SourceInspection}
use ops_incident_collector.Core.Inspection.{InspectRequest, new_inspection, inspect_source}
use ops_incident_collector.Core.Inspection.Totals.{Counted, inspect_source-Counted}
use ops_incident_collector.Tests.Fixtures.{system, settings}

abbrev inspect_request : InspectRequest
inspect_request = record {
  path = "/data";
  max_depth = 8;
  max_file_size_mb = none;
  include = [];
  exclude = [];
  max_files = none;
}

abbrev inspection : SourceInspection
inspection = record (new_inspection "/data") {
  total_files = 4;
  supported_files = 2;
  denied_files = 1;
  empty_files = 1;
  likely_source_types = ("logs", 1) ∷ ("unknown_text", 1) ∷ [];
  supported_extensions = (".log", 1) ∷ (".md", 1) ∷ [];
  warnings = "1 denied file(s) skipped by policy" ∷ [];
  skipped_files =
      record { path = ".env"; reason = "denied"; size_bytes = some 5 }
      ∷ record { path = "empty.txt"; reason = "empty"; size_bytes = some 0 }
      ∷ [];
  possible_secrets_detected = 20;
}

inspect_source-Counted_example : Counted 0 inspection
unfolding inspect_source
inspect_source-Counted_example =
    inspect_source-Counted system settings inspect_request inspection refl
