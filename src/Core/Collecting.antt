-- ===== src/Core/Collecting.antt =====
-- core/pipeline.py: the loop of `run_sync` over the discovered files, with `skip` and
-- `_read_raw_document`.
pub mod Rounds
pub mod Tallies
pub mod Admissions
pub mod Types
use ops_incident_collector.Prelude.{
  ℕ, String, Bool, true, false, not, ◌&&◌, ◌||◌, Option, none, some, List, [], ◌∷◌, ◌++◌, ◌+◌, ◌*◌,
  ltb, leb, ◌==◌, ◌===◌, truthy, increment, Action, Result, ok, raise, pure, lift, gets, modify,
  ◌>>=◌, ◌>>◌, if◌then◌else◌,
}
use ops_incident_collector.Core.Json.{end}
use ops_incident_collector.Core.Models.{SourceItem, RawDocument, NormalizedDocument, SyncSummary}
use ops_incident_collector.Core.Machine.{System, Machine}
use ops_incident_collector.Config.Settings.{AppSettings}
use ops_incident_collector.State.Checkpoints.{CheckpointDecision, should_process_item}
use ops_incident_collector.Processors.PathPolicy.{is_denied_path}
use ops_incident_collector.Processors.FileFilter.{is_binary_file, is_supported_extension}
use ops_incident_collector.Processors.Normalizer.{normalize_document}

-- The arguments of `run_sync`.
pub record SyncRequest : Type 0 where
  pub path : String
  pub export_target : String
  pub project_id : Option String
  pub source_name : String
  pub output : Option String
  pub dry_run : Bool
  pub force : Bool
  pub no_redact : Bool
  pub max_depth : ℕ
  pub source_type : String
  pub include : List String
  pub exclude : List String
  pub max_files : Option ℕ

-- The variables of `run_sync`: `source_type` is its parameter, which the loop assigns.
pub record Sync : Type 0 where
  pub machine : Machine
  pub summary : SyncSummary
  pub documents : List NormalizedDocument
  pub source_type : String
  pub failed_external_ids : List String

-- `skip`
unfoldable pub skip : (reason extension : String) → Sync → Sync
unfolding increment
skip reason extension s = record s {
  summary = record s.summary {
    files_skipped = s.summary.files_skipped + 1;
    skipped_reasons = increment reason s.summary.skipped_reasons;
    unsupported_extensions =
        if reason === "unsupported_extension"
        then increment (if truthy extension then extension else "<none>")
            s.summary.unsupported_extensions
        else s.summary.unsupported_extensions;
  };
}

-- `document.content_type or document.source_type or "unknown_text"`
abbrev pub kind_of : NormalizedDocument → String
kind_of d =
    if truthy d.content_type
    then d.content_type
    else if truthy d.source_type
    then d.source_type
    else "unknown_text"

-- What the loop does with a document.
unfoldable pub add_document : NormalizedDocument → Sync → Sync
unfolding increment
add_document d s = record s {
  documents = s.documents ++ d ∷ [];
  source_type = kind_of d;
  summary = record s.summary {
    documents_normalized = s.summary.documents_normalized + 1;
    redaction_count = s.summary.redaction_count + d.redaction.redacted_count;
    source_type_counts = increment (kind_of d) s.summary.source_type_counts;
    bytes_processed = s.summary.bytes_processed + d.size_bytes;
  };
}

-- `max_files is not None and summary.files_seen >= max_files`
abbrev pub is_full : Option ℕ → ℕ → Bool
is_full none files_seen = false
is_full (some n) files_seen = leb n files_seen

abbrev pub is_oversized : AppSettings → SourceItem → Bool
is_oversized settings item = ltb (settings.sync.max_file_size_mb * 1024 * 1024) item.size_bytes

-- `_read_raw_document`
abbrev pub raw_document : SourceItem → String → RawDocument
raw_document item content = record {
  source_item = item;
  content = content;
  encoding = "utf-8";
  metadata = end;
}

abbrev processes : Result CheckpointDecision → Result Bool
processes (ok d) = ok d.should_process
processes (raise e) = raise e

module _ (system : System) (settings : AppSettings) (request : SyncRequest) where
  -- The document of a file that is read and whose digest is computed.
  unfoldable pub document_of : SourceItem → String → Sync → Result NormalizedDocument
  unfolding normalize_document
  document_of item content s =
      normalize_document system.engine system.extractors s.machine.world.clock
        (system.files.sha256 item.path) (raw_document item content) request.source_name
        s.source_type (not request.no_redact && settings.security.redact_secrets)

  unfoldable pub collect : SourceItem → Action Sync (Unit {0})
  unfolding document_of add_document
  collect item = do
    content ← lift (system.files.read_text item.path)
    d ← λ s. (document_of item content s, s)
    modify (add_document d)

  unfoldable pub is_changed : SourceItem → Sync → Result Bool
  unfolding should_process_item
  is_changed item s =
      if request.force
      then ok true
      else processes (
          should_process_item (system.files.sha256 item.path) s.machine.world.store
            request.source_name item)

  unfoldable pub collect_changed : SourceItem → Action Sync (Unit {0})
  unfolding should_process_item is_changed collect skip
  collect_changed item = do
    changed ← λ s. (is_changed item s, s)
    if changed then collect item else modify (skip "unchanged" "")

  unfoldable pub take_readable : SourceItem → List ℕ → Action Sync (Unit {0})
  unfolding is_binary_file is_supported_extension skip collect_changed
  take_readable item bytes =
      if is_binary_file bytes
      then modify (skip "binary" "")
      else if not (is_supported_extension item.extension)
      then modify (skip "unsupported_extension" item.extension)
      else collect_changed item

  abbrev pub see : Sync → Sync
  see s = record s { summary = record s.summary { files_seen = s.summary.files_seen + 1 } }

  abbrev read_and_take : SourceItem → Action Sync (Unit {0})
  read_and_take item = do bytes ← lift (system.files.read_bytes item.path); take_readable item bytes

  -- One round of the loop.
  unfoldable pub take_item : SourceItem → Action Sync (Unit {0})
  unfolding is_denied_path skip take_readable
  take_item item = do
    modify see
    if is_denied_path item.relative_path settings.security.deny_patterns
        then modify (skip "denied" "")
        else if (item.size_bytes == 0) || is_oversized settings item
        then modify (skip (if item.size_bytes == 0 then "empty" else "oversized") "")
        else read_and_take item

  unfoldable pub take_items : List SourceItem → Action Sync (Unit {0})
  unfolding take_item
  take_items [] = pure tt
  take_items (item ∷ items) = do
    full ← gets (λ s. is_full request.max_files s.summary.files_seen)
    elim full [ true ↦ pure tt | false ↦ take_item item >> take_items items ]
