-- ===== src/Exporters/Local.antt =====
-- exporters/jsonl_exporter.py, exporters/sqlite_exporter.py and exporters/console_exporter.py. What
-- pydantic prints of a document and the length of its UTF-8 encoding are arguments.
use ops_incident_collector.Prelude.{
  ℕ, String, List, [], ◌∷◌, ◌++◌, ◌+◌, Option, none, some, take, map, sum_of, ◌<>◌, decimal,
}
use ops_incident_collector.Core.Models.{NormalizedDocument, SyncSummary}
use ops_incident_collector.State.Store.{SqliteStore, save_normalized_document, record_sync_run}

pub record Encoder : Type 0 where
  -- `NormalizedDocumentEnvelope(document=document).model_dump_json()`
  pub dump_envelope : NormalizedDocument → String
  -- `len(s.encode("utf-8"))`
  pub utf8_length : String → ℕ

-- `JSONLExporter.export_documents` on the lines of the file, which is opened to append; the callers
-- always ask for envelopes.
unfoldable pub export_jsonl : Encoder → List NormalizedDocument → List String → ℕ × List String
export_jsonl encoder [] lines = (0, lines)
export_jsonl encoder (d ∷ ds) lines =
    let line = encoder.dump_envelope d <> "\n" in
    let (bytes_written, lines') = export_jsonl encoder ds (lines ++ line ∷ []) in
    (encoder.utf8_length line + bytes_written, lines')

unfoldable pub save_documents : List NormalizedDocument → SqliteStore → SqliteStore
unfolding save_normalized_document
save_documents [] s = s
save_documents (d ∷ ds) s = save_documents ds (save_normalized_document d s)

-- `SQLiteExporter.export_documents`
unfoldable pub export_sqlite :
    (now : ℕ) → List NormalizedDocument → SyncSummary → SqliteStore → ℕ × SqliteStore
unfolding save_documents record_sync_run
export_sqlite now documents summary s = (
  sum_of (λ d. d.size_bytes) documents,
  record_sync_run now summary "completed" (save_documents documents s),
)

abbrev pub or_none : Option String → String
or_none none = "None"
or_none (some s) = s

unfoldable pub console_line : NormalizedDocument → String
unfolding decimal
console_line d =
    or_none d.relative_path
    <> " ["
    <> d.content_type
    <> "] redacted="
    <> decimal d.redaction.redacted_count

-- `ConsoleExporter.export_documents`
unfoldable pub export_console : List NormalizedDocument → List String → ℕ × List String
unfolding console_line
export_console documents printed = (0, printed ++ map console_line (take 10 documents))
