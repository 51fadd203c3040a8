-- ===== src/Exporters/IncidentopsApi.antt =====
-- exporters/incidentops_api.py: `IncidentOpsAPIExporter`.
pub mod Recorded
pub mod Fares
pub mod Account
pub mod Kept
pub mod Calls
use ops_incident_collector.Prelude.{
  ℕ, String, Bool, true, false, not, ◌&&◌, ◌||◌, Option, none, some, List, [], ◌∷◌, ◌++◌, ◌+◌, ◌-◌,
  map, min, length, sum_of, ltb, ◌==◌, Dict, get, sort_dict, increment, Exc, Action, Result, ok,
  raise, missing_batch_endpoint, request_error, http_status_error, value_error, permission_error,
  key_error, os_error, startup_error, pure, throw, lift, gets, modify, try_except, ◌>>=◌, ◌>>◌,
  truthy, ◌===◌, ◌<>◌, decimal, one_of, non_empty, if◌then◌else◌,
}
use ops_incident_collector.Core.Json.{
  Value, Items, Fields, null, boolean, number, text, array, object, nil, cons, end, field,
  get_field,
}
use ops_incident_collector.Core.Models.{NormalizedDocument, SyncSummary}
use ops_incident_collector.Core.Payload.{to_core_document_payload}
use ops_incident_collector.State.Store.{SqliteStore, FailedUpload, upsert_file_record}
use ops_incident_collector.State.Uploads.{
  Failure, record_failed_upload, get_due_failed_uploads, update_failed_upload_retry,
  mark_failed_upload_non_retryable, delete_failed_upload,
}
use ops_incident_collector.Adapters.Http.{
  CoreCapabilities, Service, World, is_retryable_api_error, get_text,
}
use ops_incident_collector.Adapters.Endpoints.{supports_feature}
use ops_incident_collector.Adapters.Client.{
  batch_upload_documents, capabilities, register_collector, register_source, create_sync,
  update_sync,
}
use ops_incident_collector.Processors.Batcher.{batch_items}
use ops_incident_collector.Exporters.ExportState.{
  Exporter, Export, on_world, on_store, describe, add_id, fields_of, texts_of, type_key,
  count_types, sync_diagnostics, core_finish_status, supports_sync_lifecycle, payload_text,
  as_number, payload_number, first_text, remote_field, remote_id, or_zero, payload_of, failure_of,
  record_failed_batch, retry_failed, retry_done,
}

module _ (service : Service) (version : String) (x : Exporter) where
  abbrev source_id_of : Export → String
  source_id_of e = elim e.summary.source_id [
    | none ↦ x.source_name
    | some s ↦ if truthy s then s else x.source_name
  ]

  -- One row of the loop of `_retry_due_uploads`.
  unfoldable pub retry_row_upload :
      Option CoreCapabilities → String → FailedUpload → Action Export (Unit {0})
  unfolding batch_upload_documents is_retryable_api_error describe update_failed_upload_retry
      mark_failed_upload_non_retryable delete_failed_upload upsert_file_record get_text get_field
  retry_row_upload caps sync_id row = do
    modify (λ e. record e {
      summary = record e.summary { retry_attempted = e.summary.retry_attempted + 1 };
    })
    let payload = payload_of row.payload_json
    source_id ← gets source_id_of
    collector_id ← gets (λ e. e.collector_id)
    try_except
        (do
          on_world (
              batch_upload_documents service version x.project_id source_id (payload ∷ [])
                (some sync_id) collector_id caps)
          modify (retry_done x row payload))
        (λ exc. modify (retry_failed x row exc))

  unfoldable pub retry_rows :
      Option CoreCapabilities → String → List FailedUpload → Action Export (Unit {0})
  unfolding retry_row_upload
  retry_rows caps sync_id [] = pure tt
  retry_rows caps sync_id (row ∷ rows) = do
    retry_row_upload caps sync_id row
    retry_rows caps sync_id rows

  -- `_retry_due_uploads`; it adds to `uploaded_bytes` itself.
  unfoldable pub retry_due_uploads : Option CoreCapabilities → String → Action Export (Unit {0})
  unfolding retry_rows get_due_failed_uploads
  retry_due_uploads caps sync_id = do
    rows ←
        gets (λ e. get_due_failed_uploads e.world.clock x.source_name x.retry_count e.world.store)
    retry_rows caps sync_id rows

  abbrev batch_warning : ℕ → Bool → String
  batch_warning n retryable =
      if retryable
      then "queued " <> decimal n <> " failed upload(s)"
      else "recorded " <> decimal n <> " non-retryable upload failure(s)"

  abbrev batch_failed : List NormalizedDocument → Exc → Export → Export
  batch_failed batch exc e =
      let retryable = is_retryable_api_error exc in
      record_failed_batch x e.summary.sync_id batch exc retryable (record e {
        summary = record e.summary {
          failed_uploads = e.summary.failed_uploads + length batch;
          warnings = e.summary.warnings ++ batch_warning (length batch) retryable ∷ [];
        };
      })

  abbrev on_batch_error : List NormalizedDocument → Exc → Action Export (Unit {0})
  on_batch_error batch missing_batch_endpoint = throw missing_batch_endpoint
  on_batch_error batch exc = modify (batch_failed batch exc)

  -- One round of the loop over the batches.
  unfoldable pub upload_batch :
      Option CoreCapabilities
      → (source_id sync_id : String) → List NormalizedDocument
      → Action Export (Unit {0})
  unfolding batch_upload_documents record_failed_batch to_core_document_payload decimal
  upload_batch caps source_id sync_id batch = do
    collector_id ← gets (λ e. e.collector_id)
    try_except
        (do
          on_world (
              batch_upload_documents service version x.project_id source_id
                (map to_core_document_payload batch) (some sync_id) collector_id caps)
          modify (λ e. record e {
            uploaded_bytes = e.uploaded_bytes + sum_of (λ d. d.size_bytes) batch;
          }))
        (on_batch_error batch)

  unfoldable pub upload_batches :
      Option CoreCapabilities
      → (source_id sync_id : String) → List (List NormalizedDocument)
      → Action Export (Unit {0})
  unfolding upload_batch
  upload_batches caps source_id sync_id [] = pure tt
  upload_batches caps source_id sync_id (batch ∷ batches) = do
    upload_batch caps source_id sync_id batch
    upload_batches caps source_id sync_id batches

  abbrev shrink_batches : Option CoreCapabilities → Export → Export
  shrink_batches none e = e
  shrink_batches (some c) e = elim (get "max_batch_size" c.limits) [
    | none ↦ e
    | some n ↦ if n == 0 then e else record e { batch_size = min e.batch_size n }
  ]

  abbrev finish_payload : (status : String) → List NormalizedDocument → Export → Fields
  finish_payload status documents e = field "status" (text status) (
      field "documents_synced" (number (length documents - length e.failed_external_ids)) (
        field "failed_uploads" (number e.summary.failed_uploads) (
          field "collector_id" (text (first_text (e.collector_id ∷ []) "")) (
            field "diagnostics"
              (object (sync_diagnostics e.summary documents e.failed_external_ids)) end))))

  -- The payload of the handler has no `documents_synced`.
  abbrev failed_payload : List NormalizedDocument → Export → Fields
  failed_payload documents e = field "status" (text "failed") (
      field "failed_uploads" (number e.summary.failed_uploads) (
        field "collector_id" (text (first_text (e.collector_id ∷ []) "")) (
          field "diagnostics" (object (sync_diagnostics e.summary documents e.failed_external_ids))
            end)))

  abbrev start_payload : List NormalizedDocument → Export → Fields
  start_payload documents e = field "sync_id" (text e.summary.sync_id) (
      field "status" (text "started") (
        field "project_id" (text x.project_id) (
          field "collector_id" (text (first_text (e.collector_id ∷ []) ""))
            (field "diagnostics" (object (sync_diagnostics e.summary documents [])) end))))

  unfoldable pub start_sync :
      Option CoreCapabilities → String → List NormalizedDocument → Action Export (Unit {0})
  unfolding create_sync supports_sync_lifecycle sync_diagnostics get_field
  start_sync caps source_id documents =
      if supports_sync_lifecycle caps
      then (do
        payload ← gets (start_payload documents)
        sync_id ← gets (λ e. e.summary.sync_id)
        response ← on_world (create_sync service version source_id sync_id payload caps)
        modify (λ e. record e { sync_started = true })
        remote ← lift (remote_id sync_id response)
        modify (λ e. record e { remote_sync_id = remote }))
      else pure tt

  unfoldable pub finish_sync :
      Option CoreCapabilities → String → List NormalizedDocument → Action Export (Unit {0})
  unfolding update_sync supports_sync_lifecycle sync_diagnostics core_finish_status
  finish_sync caps source_id documents =
      if supports_sync_lifecycle caps
      then (do
        sync_id ← gets (λ e. e.remote_sync_id)
        status ← gets (λ e. core_finish_status e.summary.failed_uploads)
        payload ← gets (finish_payload status documents)
        on_world (update_sync service version source_id sync_id status payload caps)
        pure tt)
      else pure tt

  -- The body of the `try`.
  unfoldable pub run_export :
      Option CoreCapabilities → String → List NormalizedDocument → Action Export ℕ
  unfolding start_sync finish_sync retry_due_uploads upload_batches batch_items
  run_export caps source_id documents = do
    start_sync caps source_id documents
    sync_id ← gets (λ e. e.remote_sync_id)
    retry_due_uploads caps sync_id
    size ← gets (λ e. e.batch_size)
    upload_batches caps source_id sync_id (batch_items documents size)
    finish_sync caps source_id documents
    gets (λ e. e.uploaded_bytes)

  abbrev tell_failed :
      Option CoreCapabilities → (source_id sync_id : String) → Fields → Action Export (Unit {0})
  tell_failed caps source_id sync_id payload = do
    on_world (update_sync service version source_id sync_id "failed" payload caps)
    pure tt

  abbrev tell_and_throw :
      Option CoreCapabilities → String → List NormalizedDocument → Exc → Action Export ℕ
  tell_and_throw caps source_id documents exc = do
    sync_id ← gets (λ e. e.remote_sync_id)
    payload ← gets (failed_payload documents)
    try_except (tell_failed caps source_id sync_id payload) (λ _. pure tt)
    throw exc

  -- The handler: Core is told of the failure, if it can be, and the exception goes on.
  unfoldable pub report_failure :
      Option CoreCapabilities → String → List NormalizedDocument → Exc → Action Export ℕ
  unfolding update_sync supports_sync_lifecycle sync_diagnostics
  report_failure caps source_id documents exc = do
    started ← gets (λ e. e.sync_started)
    if started && supports_sync_lifecycle caps
        then tell_and_throw caps source_id documents exc
        else throw exc

  -- The export under a registered source.
  abbrev pub export_source :
      Option CoreCapabilities → List NormalizedDocument → String → Action Export ℕ
  export_source caps documents source_id = do
    modify (λ e. record e {
      summary = record e.summary { source_id = some source_id };
      remote_sync_id = e.summary.sync_id;
      uploaded_bytes = 0;
      sync_started = false;
    })
    try_except (run_export caps source_id documents) (report_failure caps source_id documents)

  -- The identifier of the collector in the answer to its registration.
  abbrev pub collector_id_of : Value → Action Export String
  collector_id_of collector = do
    collector_id ← lift (get_text "collector_id" collector)
    id ← lift (get_text "id" collector)
    uuid ← lift (get_text "uuid" collector)
    pure (first_text (collector_id ∷ id ∷ uuid ∷ []) x.collector_name)

  abbrev pub set_collector : String → Export → Export
  set_collector name e = record e {
    collector_id = some name;
    summary = record e.summary { collector_id = some name };
  }

  -- The export under a registered collector.
  abbrev pub export_collector :
      Option CoreCapabilities → List NormalizedDocument → String → Action Export ℕ
  export_collector caps documents name = do
    modify (set_collector name)
    source_id ←
        on_world (register_source service version x.project_id x.source_name x.source_type caps)
    export_source caps documents source_id

  -- The export under known capabilities.
  abbrev pub export_to_core : List NormalizedDocument → Option CoreCapabilities → Action Export ℕ
  export_to_core documents caps = do
    modify (shrink_batches caps)
    collector ← on_world (
        register_collector service version x.project_id x.collector_name x.collector_environment
          caps)
    name ← collector_id_of collector
    export_collector caps documents name

  unfoldable pub export_documents : List NormalizedDocument → Action Export ℕ
  unfolding run_export report_failure capabilities register_collector register_source get_text get
  export_documents documents = do
    caps ← on_world (capabilities service version)
    export_to_core documents caps
