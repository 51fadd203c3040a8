-- ===== src/Exporters/ExportState.antt =====
-- exporters/incidentops_api.py: the state of the exporter for Core, what it reads of an answer, and what it
-- writes for a document that failed or was retried. `str` of an exception is its message.
use ops_incident_collector.Prelude.{
  ℕ, String, Bool, true, ◌||◌, Option, none, some, List, [], ◌∷◌, ◌++◌, ◌+◌, ◌-◌, length, ltb, Dict,
  sort_dict, increment, Exc, Action, Result, ok, raise, missing_batch_endpoint, request_error,
  http_status_error, value_error, permission_error, key_error, os_error, startup_error, truthy,
  one_of, if◌then◌else◌,
}
use ops_incident_collector.Core.Json.{
  Value, Items, Fields, null, number, text, array, object, nil, cons, end, field, get_field,
}
use ops_incident_collector.Core.Models.{NormalizedDocument, SyncSummary}
use ops_incident_collector.Core.Payload.{to_core_document_payload}
use ops_incident_collector.State.Store.{SqliteStore, FailedUpload, upsert_file_record}
use ops_incident_collector.State.Uploads.{
  Failure, record_failed_upload, update_failed_upload_retry, mark_failed_upload_non_retryable,
  delete_failed_upload,
}
use ops_incident_collector.Adapters.Http.{CoreCapabilities, World, is_retryable_api_error, get_text}
use ops_incident_collector.Adapters.Endpoints.{supports_feature}

-- The arguments of the constructor that do not change. The store is always given by the callers.
pub record Exporter : Type 0 where
  pub project_id : String
  pub collector_name : String
  pub collector_environment : String
  pub source_name : String
  pub source_type : String
  pub retry_count : ℕ
  pub retry_backoff_seconds : ℕ

-- The exporter's fields that change, the summary that it is given, and the variables of
-- `export_documents` that its handler of exceptions reads.
pub record Export : Type 0 where
  pub world : World
  pub summary : SyncSummary
  pub failed_external_ids : List String
  pub batch_size : ℕ
  pub collector_id : Option String
  pub remote_sync_id : String
  pub uploaded_bytes : ℕ
  pub sync_started : Bool

-- A call of the client.
abbrev pub on_world {ℓ} : {A : Type ℓ} → Action World A → Action Export A
on_world m e = let (r, w) = m e.world in (r, record e { world = w })

abbrev pub on_store : (ℕ → SqliteStore → SqliteStore) → Export → Export
on_store f e = record e { world = record e.world { store = f e.world.clock e.world.store } }

-- `str(exc)`
unfoldable pub describe : Exc → String
describe missing_batch_endpoint =
    "IncidentOps Core does not expose a document batch ingestion endpoint. Use --export jsonl or update Core."
describe (request_error m) = m
describe (http_status_error status) = "HTTP status error"
describe (value_error m) = m
describe (permission_error m) = m
describe (key_error m) = m
describe (os_error m) = m
describe (startup_error m) = m

-- `set.add`
unfoldable pub add_id : String → List String → List String
add_id i ids = if one_of ids i then ids else ids ++ i ∷ []

abbrev pub fields_of : Dict ℕ → Fields
fields_of [] = end
fields_of ((k, n) ∷ d) = field k (number n) (fields_of d)

abbrev pub texts_of : List String → Items
texts_of [] = nil
texts_of (s ∷ ss) = cons (text s) (texts_of ss)

abbrev pub type_key : NormalizedDocument → String
type_key d = if truthy d.content_type then d.content_type else d.source_type

abbrev pub count_types : List NormalizedDocument → Dict ℕ → Dict ℕ
count_types [] c = c
count_types (d ∷ ds) c = count_types ds (increment (type_key d) c)

unfoldable pub sync_diagnostics : SyncSummary → List NormalizedDocument → List String → Fields
unfolding sort_dict increment
sync_diagnostics summary documents failed_external_ids =
    field "total_files_seen" (number summary.files_seen) (
      field "files_seen" (number summary.files_seen) (
        field "files_skipped" (number summary.files_skipped) (
          field "skipped_reasons" (object (fields_of (sort_dict summary.skipped_reasons))) (
            field "unsupported_extensions"
              (object (fields_of (sort_dict summary.unsupported_extensions)))
              (field "documents_normalized" (number summary.documents_normalized) (
                field "documents_synced"
                  (number (length documents - length failed_external_ids + summary.retry_succeeded))
                  (field "failed_uploads" (number summary.failed_uploads) (
                    field "retry_attempted" (number summary.retry_attempted) (
                      field "retry_succeeded" (number summary.retry_succeeded) (
                        field "redaction_count" (number summary.redaction_count) (
                          field "source_type_counts"
                            (object (fields_of (sort_dict (count_types documents []))))
                            (field "warnings" (array (texts_of summary.warnings)) end))))))))))))

-- `_core_finish_status`; no caller cancels.
unfoldable pub core_finish_status : ℕ → String
core_finish_status failed_uploads = if ltb 0 failed_uploads then "partial_success" else "success"

unfoldable pub supports_sync_lifecycle : Option CoreCapabilities → Bool
unfolding supports_feature
supports_sync_lifecycle none = true
supports_sync_lifecycle (some c) =
    supports_feature (some c) "sync_tracking" || supports_feature (some c) "sync_lifecycle"

-- `payload.get(key)` as a text or a number, where it is true.
abbrev pub payload_text : String → Value → Option String
payload_text key v = elim (get_text key v) [ ok o ↦ o | raise e ↦ none ]

abbrev pub as_number : Option Value → Option ℕ
as_number (some (number n)) = some n
as_number _ = none

abbrev pub payload_number : String → Value → Option ℕ
payload_number key (object fs) = as_number (get_field key fs)
payload_number key v = none

abbrev pub first_text : List (Option String) → String → String
first_text [] d = d
first_text (none ∷ os) d = first_text os d
first_text (some s ∷ os) d = s

-- `sync_response.get("sync_id", summary.sync_id)`, where the answer has a text if it has one.
abbrev pub remote_field : String → Option Value → Result String
remote_field sync_id none = ok sync_id
remote_field sync_id (some (text s)) = ok s
remote_field sync_id (some v) = raise (value_error "not a text")

abbrev pub remote_id : String → Value → Result String
remote_id sync_id (object fs) = remote_field sync_id (get_field "sync_id" fs)
remote_id sync_id v = raise (value_error "not an object")

abbrev pub or_zero : Option ℕ → ℕ
or_zero none = 0
or_zero (some n) = n

abbrev pub payload_of : Option Value → Value
payload_of none = null
payload_of (some v) = v

-- A document of a batch that was not uploaded, as a row of the queue.
unfoldable pub failure_of : Exporter → String → Exc → Bool → NormalizedDocument → Failure
unfolding describe to_core_document_payload
failure_of x sync_id exc retryable d = record {
  sync_id = sync_id;
  source_name = x.source_name;
  path = d.path;
  document_external_id = d.external_id;
  payload_json = to_core_document_payload d;
  reason = if retryable then "retryable_upload_error" else "non_retryable_upload_error";
  last_error = describe exc;
  retry_count = if retryable then 0 else x.retry_count;
}

-- `_record_failed_batch`
unfoldable pub record_failed_batch :
    Exporter → String → List NormalizedDocument → Exc → Bool → Export → Export
unfolding add_id failure_of record_failed_upload
record_failed_batch x sync_id [] exc retryable e = e
record_failed_batch x sync_id (d ∷ batch) exc retryable e =
    record_failed_batch x sync_id batch exc retryable (
      on_store (λ now. record_failed_upload now (failure_of x sync_id exc retryable d))
        (record e { failed_external_ids = add_id d.external_id e.failed_external_ids }))

abbrev pub retry_failed : Exporter → FailedUpload → Exc → Export → Export
retry_failed x row exc e =
    let e' =
      on_store
        (λ now.
          if is_retryable_api_error exc
          then update_failed_upload_retry now row.id (describe exc) x.retry_backoff_seconds
              x.retry_count
          else mark_failed_upload_non_retryable now row.id (describe exc) x.retry_count)
        e in
    record e' { summary = record e'.summary { failed_uploads = e'.summary.failed_uploads + 1 } }

abbrev pub retry_done : Exporter → FailedUpload → Value → Export → Export
retry_done x row payload e =
    let size = or_zero (payload_number "size_bytes" payload) in
    let path = first_text (payload_text "path" payload ∷ []) row.path in
    let e' =
      on_store
        (λ now s.
          upsert_file_record now x.source_name path
            (first_text (payload_text "relative_path" payload ∷ payload_text "path" payload ∷ [])
              row.path)
            (first_text (payload_text "checksum" payload ∷ payload_text "content_hash" payload ∷ [])
              "")
            size (payload_number "modified_at" payload) "synced" none
            (delete_failed_upload row.id s))
        e in
    record e' {
      summary = record e'.summary { retry_succeeded = e'.summary.retry_succeeded + 1 };
      uploaded_bytes = e'.uploaded_bytes + size;
    }
