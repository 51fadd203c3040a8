-- ===== src/Processors/Normalizer.antt =====
-- processors/normalizer.py and the dispatch of receivers/__init__.py. The extractors of metadata and
-- the digest are arguments: regular expressions, git and `hashlib` do their work.
pub mod Secrecy
use ops_incident_collector.Prelude.{
  ℕ, String, Bool, true, false, not, Option, none, some, List, [], ◌∷◌, ◌===◌, ◌<>◌, truthy, one_of,
  Result, ok, raise, if◌then◌else◌,
}
use ops_incident_collector.Core.Json.{
  Value, Items, Fields, text, boolean, array, end, field, put_field, merge,
}
use ops_incident_collector.Core.Models.{
  SourceItem, RawDocument, NormalizedDocument, RedactionSummary,
}
use ops_incident_collector.Processors.Regex.{Engine}
use ops_incident_collector.Processors.Hints.{Parser, build_document_hints}
use ops_incident_collector.Processors.Redactor.{redact_text}
use ops_incident_collector.Processors.Classifier.{classify_content, path_name}

-- The functions that the normalizer calls and this library does not model.
pub record Extractors : Type 0 where
  -- `metadata_extractor.extract_metadata`
  pub base_metadata : (path text detected_type : String) → Fields
  -- `extract_metadata` of the receivers' modules.
  pub logs_folder : (path text : String) → Fields
  pub git_local : (path text : String) → Fields
  pub deploy_history : (path text : String) → Fields
  pub runbooks : (path text : String) → Fields
  pub incidents : (path text : String) → Fields
  pub api_docs : (path text : String) → Fields
  -- `ast.parse` and `ast.walk`.
  pub parse : Parser

-- `extract_receiver_metadata`
unfoldable pub extract_receiver_metadata :
    Extractors → (source_type detected_type path relative_path text : String) → Fields
extract_receiver_metadata x source_type detected_type path relative_path content =
    let kind = if not (source_type === "filesystem") then source_type else detected_type in
    if one_of ("logs" ∷ "logs_folder" ∷ []) kind
    then x.logs_folder relative_path content
    else if one_of ("git_local" ∷ "code" ∷ []) kind
    then x.git_local path content
    else if kind === "deploy_history"
    then x.deploy_history relative_path content
    else if one_of ("runbook" ∷ "runbooks" ∷ []) kind
    then x.runbooks relative_path content
    else if one_of ("incident_report" ∷ "incidents" ∷ []) kind
    then x.incidents relative_path content
    else if one_of ("api_doc" ∷ "api_docs" ∷ []) kind
    then x.api_docs relative_path content
    else field "source_kind" (text detected_type) end

abbrev or_name : String → String → String
or_name relative_path path = if truthy relative_path then relative_path else path_name path

abbrev type_of : Engine → SourceItem → String → Option String → String
type_of engine item content none =
    classify_content engine item.path item.extension (some item.relative_path) (some content)
type_of engine item content (some t) =
    if truthy t
    then t
    else classify_content engine item.path item.extension (some item.relative_path) (some content)

-- `item.detected_type or classify_content(...)`
unfoldable pub detect_type : Engine → SourceItem → String → String
unfolding classify_content
detect_type engine item content = type_of engine item content item.detected_type

-- The document, from the redacted text, once the type is known.
unfoldable pub build_document :
    Engine
    → Extractors
    → (source_name source_type : String) → (now : ℕ) → (checksum : String) → RawDocument
    → (detected_type : String) → String × RedactionSummary
    → NormalizedDocument
unfolding extract_receiver_metadata build_document_hints put_field merge path_name
build_document engine x source_name source_type now checksum raw detected_type
      (content, redaction) =
    let item = raw.source_item in
    let relative_path = or_name item.relative_path item.path in
    let (citation_hints, chunking_hints) =
      build_document_hints engine x.parse item.path relative_path content detected_type in
    let metadata =
      merge (merge raw.metadata (x.base_metadata relative_path content detected_type))
        (extract_receiver_metadata x source_type detected_type item.path relative_path content) in
    record {
      document_id = none;
      source_name = source_name;
      source_type = source_type;
      external_id = source_name <> ":" <> item.relative_path;
      path = item.path;
      relative_path = some item.relative_path;
      content = content;
      content_type = detected_type;
      checksum = checksum;
      size_bytes = item.size_bytes;
      modified_at = item.modified_at;
      discovered_at = now;
      metadata = put_field "hints_are_advisory" (boolean true) (
          put_field "chunking_hints" (array chunking_hints)
            (put_field "citation_hints" (array citation_hints) metadata));
      redaction = redaction;
    }

abbrev with_digest : (String → NormalizedDocument) → Result String → Result NormalizedDocument
with_digest f (ok checksum) = ok (f checksum)
with_digest f (raise e) = raise e

-- `sha256` is the digest of the file, whose reading may raise: of the bytes of the file, not of the
-- text that was decoded from them.
unfoldable pub normalize_document :
    Engine
    → Extractors
    → (now : ℕ) → (sha256 : Result String) → RawDocument
    → (source_name source_type : String) → (redact_secrets : Bool) → Result NormalizedDocument
unfolding build_document detect_type redact_text
normalize_document engine x now sha256 raw source_name source_type redact_secrets =
    with_digest
      (λ checksum.
        build_document engine x source_name source_type now checksum raw
          (detect_type engine raw.source_item raw.content)
          (redact_text engine raw.content redact_secrets))
      sha256
