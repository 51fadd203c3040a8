-- ===== src/Core/Analysis.antt =====
-- core/analysis.py: the documents of a tree, the report on the coverage of sources and the report on
-- readiness. A score is in hundredths, which the code's rounding to two places makes of it.
pub mod Seeds
pub mod Scores
use ops_incident_collector.Prelude.{
  ℕ, suc, String, Bool, true, false, not, ◌&&◌, ◌||◌, Option, none, some, List, [], ◌∷◌, ◌++◌, ◌+◌,
  ◌*◌, ◌/◌, min, max, length, any, keep, count_of, get, ltb, leb, ◌==◌, ◌<>◌, Result, ok, raise,
  if◌then◌else◌,
}
use ops_incident_collector.Core.Json.{Value, Fields, null, end, field, get_field}
use ops_incident_collector.Core.Models.{
  SourceItem, NormalizedDocument, SourceInspection, SourceCoverageReport, RagReadinessReport,
}
use ops_incident_collector.Core.Machine.{System}
use ops_incident_collector.Core.Collecting.{raw_document}
use ops_incident_collector.Core.Inspection.{
  InspectRequest, inspect_source, default_max_file_size_mb,
}
use ops_incident_collector.Config.Settings.{AppSettings}
use ops_incident_collector.Adapters.Http.{truthy_value}
use ops_incident_collector.Processors.PathPolicy.{is_denied_path, ensure_path_allowed}
use ops_incident_collector.Processors.FileFilter.{is_binary_file, is_supported_extension}
use ops_incident_collector.Processors.Classifier.{path_name}
use ops_incident_collector.Processors.Normalizer.{normalize_document}
use ops_incident_collector.Receivers.Filesystem.{discover_files}

-- `(settings.sync.max_file_size_mb or DEFAULT_MAX_FILE_SIZE_MB) * 1024 * 1024`
abbrev pub max_bytes : AppSettings → ℕ
max_bytes settings =
    (if settings.sync.max_file_size_mb == 0
      then default_max_file_size_mb
      else settings.sync.max_file_size_mb)
    * 1024
    * 1024

-- The truth value of `metadata.get(key)`.
abbrev pub has_value : String → Fields → Bool
has_value key metadata = elim (get_field key metadata) [ none ↦ false | some v ↦ truthy_value v ]

abbrev pub count_fields : Fields → ℕ
count_fields end = 0
count_fields (field k v fs) = suc (count_fields fs)

-- `metadata.get("citation_hints") or metadata.get("chunking_hints")`
unfoldable pub has_hints : NormalizedDocument → Bool
unfolding get_field
has_hints d = has_value "citation_hints" d.metadata || has_value "chunking_hints" d.metadata

-- A kind of source: whether it is there, what is said when it is missing, and its name.
abbrev pub Recommended : Type 0
Recommended = Bool × String × String

abbrev pub missing_warnings : List Recommended → List String
missing_warnings [] = []
missing_warnings ((present, warning, name) ∷ rest) =
    if present then missing_warnings rest else warning ∷ missing_warnings rest

abbrev pub missing_names : List Recommended → List String
missing_names [] = []
missing_names ((present, warning, name) ∷ rest) =
    if present then missing_names rest else name ∷ missing_names rest

abbrev pub recommended :
    (has_logs has_code has_deploys has_incidents has_runbooks has_api_docs : Bool)
    → List Recommended
recommended has_logs has_code has_deploys has_incidents has_runbooks has_api_docs =
    (has_logs, "No logs found. Runtime incident investigation may be weak.", "logs")
    ∷ (has_code, "No code found. Root-cause mapping to implementation may be weak.", "code")
    ∷ (
      has_deploys, "No deploy history found. Deploy-regression investigation may be weak.",
      "deploy_history",
    )
    ∷ (
      has_incidents, "No incident reports found. Previous-incident lookup unavailable.",
      "incidents",
    )
    ∷ (has_runbooks, "No runbooks found. Suggested remediation may be generic.", "runbooks")
    ∷ (has_api_docs, "No API docs found. Endpoint-aware investigation may be limited.", "api_docs")
    ∷ []

-- `counts.get(kind, 0) > 0`
abbrev pub has : SourceInspection → String → Bool
has i kind = ltb 0 (count_of kind i.likely_source_types)

-- The report on the sources of an inspection.
unfoldable pub coverage_of : SourceInspection → SourceCoverageReport
unfolding get
coverage_of i =
    let missing =
      recommended (has i "logs") (has i "code") (has i "deploy_history" || has i "deploy")
        (has i "incident_report" || has i "incident") (has i "runbook") (has i "api_doc") in
    record {
      has_logs = has i "logs";
      has_code = has i "code";
      has_deploys = has i "deploy_history" || has i "deploy";
      has_incidents = has i "incident_report" || has i "incident";
      has_runbooks = has i "runbook";
      has_api_docs = has i "api_doc";
      source_type_counts = i.likely_source_types;
      document_count = i.supported_files;
      warning_count = length (i.warnings ++ missing_warnings missing);
      warnings = i.warnings ++ missing_warnings missing;
      missing_recommended_sources = missing_names missing;
    }

abbrev pub points : Bool → ℕ → ℕ
points present n = if present then n else 0

-- `min(round(score, 2), 1.0)` of the sum.
unfoldable pub score_of : SourceCoverageReport → (useful_hints : Bool) → ℕ
score_of c useful_hints =
    min
      (points c.has_logs 20
        + points c.has_code 20
        + points c.has_deploys 15
        + points c.has_incidents 15
        + points c.has_runbooks 10
        + points c.has_api_docs 5
        + points useful_hints 15)
      100

unfoldable pub grade_of : ℕ → String
grade_of score =
    if leb 80 score
    then "strong"
    else if leb 60 score
    then "usable"
    else if leb 35 score
    then "weak"
    else "poor"

abbrev pub available : List (String × Bool) → List String
available [] = []
available ((label, present) ∷ rest) =
    if present then (label <> " available") ∷ available rest else available rest

abbrev pub is_rich : NormalizedDocument → Bool
is_rich d = leb 5 (count_fields d.metadata) && has_hints d

-- `estimated_metadata_quality`
unfoldable pub metadata_quality : List NormalizedDocument → String
unfolding has_hints
metadata_quality documents =
    let rich = length (keep is_rich documents) in
    if leb (max (length documents / 2) 1) rich
    then "strong"
    else if ltb 0 rich
    then "usable"
    else "weak"

unfoldable pub readiness_of : SourceCoverageReport → List NormalizedDocument → RagReadinessReport
unfolding score_of grade_of metadata_quality has_hints
readiness_of c documents =
    let useful_hints = any has_hints documents in
    let score = score_of c useful_hints in
    record {
      score = score;
      grade = grade_of score;
      ready_for_core_sync = ltb 0 c.document_count;
      ready_for_investigation = leb 60 score;
      strengths = available (
          ("logs", c.has_logs)
          ∷ ("code", c.has_code)
          ∷ ("deploy history", c.has_deploys)
          ∷ ("incident reports", c.has_incidents)
          ∷ ("runbooks", c.has_runbooks)
          ∷ ("API docs", c.has_api_docs)
          ∷ ("metadata and hints", useful_hints)
          ∷ []);
      weaknesses = c.warnings;
      recommended_next_sources = c.missing_recommended_sources;
      coverage = c;
      estimated_document_count = c.document_count;
      estimated_metadata_quality = metadata_quality documents;
    }

-- A document before the others, unless it raised.
abbrev pub and_documents :
    Result NormalizedDocument → Result (List NormalizedDocument) → Result (List NormalizedDocument)
and_documents (raise e) rest = raise e
and_documents (ok d) (raise e) = raise e
and_documents (ok d) (ok ds) = ok (d ∷ ds)

module _ (system : System) (settings : AppSettings) (now : ℕ) where
  -- The document of a file that passes the tests.
  unfoldable pub local_document :
      (source_name source_type : String) → SourceItem → Result String → Result NormalizedDocument
  unfolding normalize_document
  local_document source_name source_type item (raise e) = raise e
  local_document source_name source_type item (ok content) =
      normalize_document system.engine system.extractors now (system.files.sha256 item.path)
        (raw_document item content) source_name source_type settings.security.redact_secrets

  -- The loop of `collect_normalized_documents`.
  unfoldable pub local_documents :
      (source_name source_type : String) → List SourceItem → Result (List NormalizedDocument)
  unfolding is_denied_path is_binary_file is_supported_extension local_document
  local_documents source_name source_type [] = ok []
  local_documents source_name source_type (item ∷ items) =
      let rest = local_documents source_name source_type items in
      if is_denied_path item.relative_path settings.security.deny_patterns
        || ((item.size_bytes == 0) || ltb (max_bytes settings) item.size_bytes)
      then rest
      else elim (system.files.read_bytes item.path) [
        | raise e ↦ raise e
        | ok bytes ↦
            if is_binary_file bytes || not (is_supported_extension item.extension)
            then rest
            else and_documents
                (local_document source_name source_type item (system.files.read_text item.path))
                rest
      ]

  abbrev pub allowed_documents :
      (path source_name source_type : String)
      → (max_depth : ℕ) → Result (Unit {0})
      → Result (List NormalizedDocument)
  allowed_documents path source_name source_type max_depth (raise e) = raise e
  allowed_documents path source_name source_type max_depth (ok u) =
      local_documents source_name source_type (discover_files system.files path max_depth [] [])

  -- `collect_normalized_documents` with the source's name and type that its callers here leave out.
  unfoldable pub collect_normalized_documents :
      (path : String) → (max_depth : ℕ) → Result (List NormalizedDocument)
  unfolding ensure_path_allowed local_documents discover_files path_name
  collect_normalized_documents path max_depth =
      allowed_documents path (path_name path) "filesystem" max_depth
        (ensure_path_allowed system.paths (system.paths.resolve path) settings.security.allow_paths)

  abbrev inspection_request : (path : String) → (max_depth : ℕ) → InspectRequest
  inspection_request path max_depth = record {
    path = path;
    max_depth = max_depth;
    max_file_size_mb = none;
    include = [];
    exclude = [];
    max_files = none;
  }

  abbrev pub covered : Result SourceInspection → Result SourceCoverageReport
  covered (raise e) = raise e
  covered (ok i) = ok (coverage_of i)

  unfoldable pub build_source_coverage_report :
      (path : String) → (max_depth : ℕ) → Result SourceCoverageReport
  unfolding inspect_source coverage_of
  build_source_coverage_report path max_depth =
      covered (inspect_source system settings (inspection_request path max_depth))

  abbrev pub ready :
      Result SourceCoverageReport → Result (List NormalizedDocument) → Result RagReadinessReport
  ready (raise e) documents = raise e
  ready (ok c) (raise e) = raise e
  ready (ok c) (ok documents) = ok (readiness_of c documents)

  unfoldable pub build_rag_readiness_report :
      (path : String) → (max_depth : ℕ) → Result RagReadinessReport
  unfolding build_source_coverage_report collect_normalized_documents readiness_of
  build_rag_readiness_report path max_depth =
      ready (build_source_coverage_report path max_depth)
        (collect_normalized_documents path max_depth)
