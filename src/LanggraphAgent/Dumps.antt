-- ===== src/LanggraphAgent/Dumps.antt =====
-- `model_dump(mode="json")` of the reports of core/models.py, and a row of the table of sync runs as a
-- `dict`. A score is in hundredths, and a time in microseconds.
use ops_incident_collector.Prelude.{ℕ, String, List, [], ◌∷◌, ◌<>◌, Dict}
use ops_incident_collector.Core.Json.{
  Value, Items, Fields, null, boolean, text, number, array, object, nil, cons, end, field,
  text_or_null, number_or_null,
}
use ops_incident_collector.Core.Models.{
  SourceInspection, SkippedFile, SourceCoverageReport, RagReadinessReport, EvalSeedCase,
  SyncSummary,
}
use ops_incident_collector.State.Store.{SyncRun, FailedUpload}
use ops_incident_collector.LanggraphAgent.State.{items_of}

abbrev counts : Dict ℕ → Fields
counts [] = end
counts ((k, n) ∷ d) = field k (number n) (counts d)

abbrev skipped : List SkippedFile → Items
skipped [] = nil
skipped (s ∷ ss) =
    cons
      (object (
        field "path" (text s.path)
          (field "reason" (text s.reason) (field "size_bytes" (number_or_null s.size_bytes) end))))
      (skipped ss)

unfoldable pub dump_inspection : SourceInspection → Fields
dump_inspection i = field "path" (text i.path) (
    field "total_files" (number i.total_files) (
      field "supported_files" (number i.supported_files) (
        field "unsupported_files" (number i.unsupported_files) (
          field "oversized_files" (number i.oversized_files) (
            field "denied_files" (number i.denied_files) (
              field "empty_files" (number i.empty_files) (
                field "likely_source_types" (object (counts i.likely_source_types)) (
                  field "supported_extensions" (object (counts i.supported_extensions)) (
                    field "unsupported_extensions" (object (counts i.unsupported_extensions)) (
                      field "warnings" (array (items_of i.warnings)) (
                        field "skipped_files" (array (skipped i.skipped_files)) (
                          field "possible_secrets_detected" (number i.possible_secrets_detected)
                            (field "binary_files" (number i.binary_files) end)))))))))))))

unfoldable pub dump_coverage : SourceCoverageReport → Fields
dump_coverage c = field "has_logs" (boolean c.has_logs) (
    field "has_code" (boolean c.has_code) (
      field "has_deploys" (boolean c.has_deploys) (
        field "has_incidents" (boolean c.has_incidents) (
          field "has_runbooks" (boolean c.has_runbooks) (
            field "has_api_docs" (boolean c.has_api_docs) (
              field "source_type_counts" (object (counts c.source_type_counts)) (
                field "document_count" (number c.document_count) (
                  field "warning_count" (number c.warning_count) (
                    field "warnings" (array (items_of c.warnings)) (
                      field "missing_recommended_sources"
                        (array (items_of c.missing_recommended_sources)) end))))))))))

unfoldable pub dump_readiness : RagReadinessReport → Fields
unfolding dump_coverage
dump_readiness r = field "score" (number r.score) (
    field "grade" (text r.grade) (
      field "ready_for_core_sync" (boolean r.ready_for_core_sync) (
        field "ready_for_investigation" (boolean r.ready_for_investigation) (
          field "strengths" (array (items_of r.strengths)) (
            field "weaknesses" (array (items_of r.weaknesses)) (
              field "recommended_next_sources" (array (items_of r.recommended_next_sources)) (
                field "coverage" (object (dump_coverage r.coverage)) (
                  field "estimated_document_count" (number r.estimated_document_count) (
                    field "estimated_metadata_quality" (text r.estimated_metadata_quality)
                      end)))))))))

unfoldable pub dump_case : EvalSeedCase → Fields
dump_case c = field "id" (text c.id) (
    field "question" (text c.question) (
      field "expected_documents" (array (items_of c.expected_documents)) (
        field "expected_terms" (array (items_of c.expected_terms)) (
          field "forbidden_terms" (array (items_of c.forbidden_terms)) (
            field "source_type" (text c.source_type) (
              field "difficulty" (text c.difficulty)
                (field "notes" (text_or_null c.notes) end)))))))

unfoldable pub dump_summary : SyncSummary → Fields
dump_summary s = field "sync_id" (text s.sync_id) (
    field "source_name" (text_or_null s.source_name) (
      field "source_id" (text_or_null s.source_id) (
        field "collector_id" (text_or_null s.collector_id) (
          field "project_id" (text_or_null s.project_id) (
            field "export_target" (text s.export_target) (
              field "files_seen" (number s.files_seen) (
                field "files_uploaded" (number s.files_uploaded) (
                  field "files_skipped" (number s.files_skipped) (
                    field "documents_synced" (number s.documents_synced) (
                      field "bytes_processed" (number s.bytes_processed) (
                        field "bytes_uploaded" (number s.bytes_uploaded) (
                          field "duration_ms" (number s.duration_ms) (
                            field "warnings" (array (items_of s.warnings)) (
                              field "errors" (array (items_of s.errors)) (
                                field "checkpoint_updated" (boolean s.checkpoint_updated) (
                                  field "failed_uploads" (number s.failed_uploads) (
                                    field "retry_attempted" (number s.retry_attempted) (
                                      field "retry_succeeded" (number s.retry_succeeded) (
                                        field "documents_normalized" (number s.documents_normalized)
                                          (field "source_type_counts"
                                            (object (counts s.source_type_counts))
                                            (field "skipped_reasons"
                                              (object (counts s.skipped_reasons))
                                              (field "unsupported_extensions"
                                                (object (counts s.unsupported_extensions))
                                                (field "redaction_count" (number s.redaction_count)
                                                  end)))))))))))))))))))))))

abbrev joined : List String → String
joined [] = "]"
joined (s ∷ []) = "\"" <> s <> "\"]"
joined (s ∷ t ∷ ts) = "\"" <> s <> "\", " <> joined (t ∷ ts)

-- `json.dumps` of a list of texts, in which no escapes are needed.
unfoldable pub json_of_texts : List String → String
json_of_texts texts = String.◌∷◌ "[" (joined texts)

-- `dict(row)` of the table `sync_runs`, whose lists are columns of text.
unfoldable pub row_of_run : SyncRun → Fields
unfolding json_of_texts
row_of_run r = field "sync_id" (text r.sync_id) (
    field "source_name" (text_or_null r.source_name) (
      field "project_id" (text_or_null r.project_id) (
        field "export_target" (text r.export_target) (
          field "status" (text r.status) (
            field "started_at" null (
              field "finished_at" (number r.finished_at) (
                field "files_seen" (number r.files_seen) (
                  field "files_uploaded" (number r.files_uploaded) (
                    field "files_skipped" (number r.files_skipped) (
                      field "documents_synced" (number r.documents_synced) (
                        field "bytes_processed" (number r.bytes_processed) (
                          field "bytes_uploaded" (number r.bytes_uploaded) (
                            field "warnings_json" (text (json_of_texts r.warnings_json)) (
                              field "errors_json" (text (json_of_texts r.errors_json))
                                end))))))))))))))

-- `_safe_failed_upload`
unfoldable pub safe_failed_upload : FailedUpload → Value
safe_failed_upload r = object (
    field "id" (number r.id) (
      field "sync_id" (text r.sync_id) (
        field "source_name" (text r.source_name) (
          field "path" (text r.path) (
            field "document_external_id" (text r.document_external_id) (
              field "reason" (text r.reason) (
                field "retry_count" (number r.retry_count) (
                  field "next_retry_at" (number_or_null r.next_retry_at)
                    (field "last_error" (text r.last_error) end)))))))))
