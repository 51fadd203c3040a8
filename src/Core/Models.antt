-- ===== src/Core/Models.antt =====
-- core/models.py. Times are microseconds since the epoch, whose ISO texts have the same order, and
-- a path is its text. A confidence is in hundredths.
use ops_incident_collector.Prelude.{ℕ, String, Bool, false, Option, none, some, List, [], Dict}
use ops_incident_collector.Core.Json.{Fields}

pub record RedactionSummary : Type 0 where
  pub enabled : Bool
  pub redacted_count : ℕ
  pub patterns_matched : List String
  pub had_possible_secret : Bool

pub record SkippedFile : Type 0 where
  pub path : String
  pub reason : String
  pub size_bytes : Option ℕ

pub record SourceInspection : Type 0 where
  pub path : String
  pub total_files : ℕ
  pub supported_files : ℕ
  pub unsupported_files : ℕ
  pub oversized_files : ℕ
  pub denied_files : ℕ
  pub empty_files : ℕ
  pub likely_source_types : Dict ℕ
  pub supported_extensions : Dict ℕ
  pub unsupported_extensions : Dict ℕ
  pub warnings : List String
  pub skipped_files : List SkippedFile
  pub possible_secrets_detected : ℕ
  pub binary_files : ℕ

pub record SyncSummary : Type 0 where
  pub sync_id : String
  pub source_name : Option String
  pub source_id : Option String
  pub collector_id : Option String
  pub project_id : Option String
  pub export_target : String
  pub files_seen : ℕ
  pub files_uploaded : ℕ
  pub files_skipped : ℕ
  pub documents_synced : ℕ
  pub bytes_processed : ℕ
  pub bytes_uploaded : ℕ
  pub duration_ms : ℕ
  pub warnings : List String
  pub errors : List String
  pub checkpoint_updated : Bool
  pub failed_uploads : ℕ
  pub retry_attempted : ℕ
  pub retry_succeeded : ℕ
  pub documents_normalized : ℕ
  pub source_type_counts : Dict ℕ
  pub skipped_reasons : Dict ℕ
  pub unsupported_extensions : Dict ℕ
  pub redaction_count : ℕ

pub record SourceItem : Type 0 where
  pub path : String
  pub relative_path : String
  pub size_bytes : ℕ
  pub modified_at : Option ℕ
  pub extension : String
  pub detected_type : Option String

pub record RawDocument : Type 0 where
  pub source_item : SourceItem
  pub content : String
  pub encoding : String
  pub metadata : Fields

pub record NormalizedDocument : Type 0 where
  pub document_id : Option String
  pub source_name : String
  pub source_type : String
  pub external_id : String
  pub path : String
  pub relative_path : Option String
  pub content : String
  pub content_type : String
  pub checksum : String
  pub size_bytes : ℕ
  pub modified_at : Option ℕ
  pub discovered_at : ℕ
  pub metadata : Fields
  pub redaction : RedactionSummary

pub record CitationHint : Type 0 where
  pub path : String
  pub relative_path : Option String
  pub start_line : Option ℕ
  pub end_line : Option ℕ
  pub label : Option String
  pub reason : Option String
  pub confidence : Option ℕ

pub record ChunkingHint : Type 0 where
  pub kind : String
  pub start_line : Option ℕ
  pub end_line : Option ℕ
  pub priority : String
  pub reason : Option String
  pub metadata : Fields

pub record SourceCoverageReport : Type 0 where
  pub has_logs : Bool
  pub has_code : Bool
  pub has_deploys : Bool
  pub has_incidents : Bool
  pub has_runbooks : Bool
  pub has_api_docs : Bool
  pub source_type_counts : Dict ℕ
  pub document_count : ℕ
  pub warning_count : ℕ
  pub warnings : List String
  pub missing_recommended_sources : List String

-- The score is in hundredths.
pub record RagReadinessReport : Type 0 where
  pub score : ℕ
  pub grade : String
  pub ready_for_core_sync : Bool
  pub ready_for_investigation : Bool
  pub strengths : List String
  pub weaknesses : List String
  pub recommended_next_sources : List String
  pub coverage : SourceCoverageReport
  pub estimated_document_count : ℕ
  pub estimated_metadata_quality : String

pub record EvalSeedCase : Type 0 where
  pub id : String
  pub question : String
  pub expected_documents : List String
  pub expected_terms : List String
  pub forbidden_terms : List String
  pub source_type : String
  pub difficulty : String
  pub notes : Option String

-- `SyncSummary(...)` with the fields that its callers give, and the defaults of the others.
abbrev pub new_summary :
    (sync_id : String) (source_name : String) (project_id : Option String) (export_target : String)
    → SyncSummary
new_summary sync_id source_name project_id export_target = record {
  sync_id = sync_id;
  source_name = some source_name;
  source_id = some source_name;
  collector_id = none;
  project_id = project_id;
  export_target = export_target;
  files_seen = 0;
  files_uploaded = 0;
  files_skipped = 0;
  documents_synced = 0;
  bytes_processed = 0;
  bytes_uploaded = 0;
  duration_ms = 0;
  warnings = [];
  errors = [];
  checkpoint_updated = false;
  failed_uploads = 0;
  retry_attempted = 0;
  retry_succeeded = 0;
  documents_normalized = 0;
  source_type_counts = [];
  skipped_reasons = [];
  unsupported_extensions = [];
  redaction_count = 0;
}
