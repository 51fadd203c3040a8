-- ===== src/Exporters/IncidentopsApi/Kept.antt =====
-- The queue stays keyed through the retries and the batches of exporters/incidentops_api.py, and the
-- summary stays that of its run.
use ops_incident_collector.Prelude.{
  String, Option, some, List, [], ◌∷◌, ◌≡◌, refl, sym, subst, Exc, missing_batch_endpoint,
  request_error, http_status_error, value_error, permission_error, key_error, os_error,
  startup_error, Action, Preserves, Preserves-bind, Preserves-modify, Preserves-try_except,
  Bool-cases, inl, inr, try_except, ◌+◌, sum_of, ◌>>◌, modify, map, ◌∙◌,
}
use ops_incident_collector.Core.Json.{Value}
use ops_incident_collector.Core.Models.{NormalizedDocument}
use ops_incident_collector.State.Store.{SqliteStore, FailedUpload, upsert_file_record}
use ops_incident_collector.State.Uploads.WellFormed.{
  IsWellFormed, apply-IsWellFormed, retry, give_up, delete,
}
use ops_incident_collector.Adapters.Http.{World, Service, CoreCapabilities, is_retryable_api_error}
use ops_incident_collector.Adapters.Client.{batch_upload_documents}
use ops_incident_collector.Adapters.Client.Store.{batch_upload_documents-HasStore}
use ops_incident_collector.Core.Payload.{to_core_document_payload}
use ops_incident_collector.Exporters.IncidentopsApi.Recorded.{
  record_failed_batch-Recorded, record_failed_batch-same,
}
use ops_incident_collector.Exporters.IncidentopsApi.{
  retry_row_upload, retry_rows, retry_due_uploads, source_id_of, upload_batch, upload_batches,
  on_batch_error, batch_failed,
}
use ops_incident_collector.Exporters.ExportState.{
  Exporter, Export, on_world, retry_failed, retry_done, describe, payload_of,
}

-- The queue is keyed, where `W` has it so at first, and the summary is of the run.
abbrev pub IsKeyed : Type 0 → String → Export → Type 0
IsKeyed W i e = (W → IsWellFormed e.world.store.failed_uploads) × (e.summary.sync_id ≡ i)

-- A call that does not write the state database.
pub on_world-IsKeyed :
    {A : Type 0} (W : Type 0) (i : String) (m : Action World A)
    → ((s : SqliteStore) → Preserves (λ (w : World). w.store ≡ s) m)
    → Preserves (IsKeyed W i) (on_world m)
on_world-IsKeyed W i m h = record {
  at = λ e w. (
    λ p.
        subst (λ (s : SqliteStore). IsWellFormed s.failed_uploads)
          (sym ((h e.world.store).at e.world refl)) (w.0 p),
    w.1,
  );
}

retry_failed-IsKeyed :
    (W : Type 0) (i : String) (x : Exporter) (row : FailedUpload) (exc : Exc) (e : Export)
    → IsKeyed W i e
    → IsKeyed W i (retry_failed x row exc e)
retry_failed-IsKeyed W i x row exc e w = elim (Bool-cases (is_retryable_api_error exc)) [
  | inl t ↦ rw t (
    λ p.
        apply-IsWellFormed e.world.clock
          (retry row.id (describe exc) x.retry_backoff_seconds x.retry_count) e.world.store (w.0 p),
    w.1,
  )
  | inr f ↦ rw f (
    λ p.
        apply-IsWellFormed e.world.clock (give_up row.id (describe exc) x.retry_count) e.world.store
          (w.0 p),
    w.1,
  )
]

retry_done-IsKeyed :
    (W : Type 0) (i : String) (x : Exporter) (row : FailedUpload) (payload : Value) (e : Export)
    → IsKeyed W i e
    → IsKeyed W i (retry_done x row payload e)
unfolding upsert_file_record
retry_done-IsKeyed W i x row payload e w =
    (λ p. apply-IsWellFormed e.world.clock (delete row.id) e.world.store (w.0 p), w.1)

module _ (service : Service) (version : String) (x : Exporter) (W : Type 0) (i : String) where
  upload-IsKeyed :
      (source_id : String) (documents : List Value) (sync_id collector_id : Option String)
      (caps : Option CoreCapabilities)
      → Preserves (IsKeyed W i) (
          on_world (
            batch_upload_documents service version x.project_id source_id documents sync_id
              collector_id caps))
  upload-IsKeyed source_id documents sync_id collector_id caps =
      on_world-IsKeyed W i
        (batch_upload_documents service version x.project_id source_id documents sync_id
          collector_id caps)
        (λ s.
          batch_upload_documents-HasStore service version s x.project_id source_id documents sync_id
            collector_id caps)

  retry_row_upload-IsKeyed :
      (caps : Option CoreCapabilities) (sync_id : String) (row : FailedUpload)
      → Preserves (IsKeyed W i) (retry_row_upload service version x caps sync_id row)
  unfolding retry_row_upload
  retry_row_upload-IsKeyed caps sync_id row =
      let payload = payload_of row.payload_json in
      record {
        at = λ e w.
            (attempt (source_id_of service version x e) e.collector_id).at
              (record e {
                summary = record e.summary { retry_attempted = e.summary.retry_attempted + 1 };
              })
              w;
      }
    where
      attempt :
          (source_id : String) (collector_id : Option String)
          → Preserves (IsKeyed W i) (
              try_except
                (on_world (
                    batch_upload_documents service version x.project_id source_id
                      (payload_of row.payload_json ∷ [])
                      (some sync_id)
                      collector_id
                      caps)
                  >> modify (retry_done x row (payload_of row.payload_json)))
                (λ exc. modify (retry_failed x row exc)))
      attempt source_id collector_id =
          Preserves-try_except
            (Preserves-bind
              (upload-IsKeyed source_id (payload_of row.payload_json ∷ []) (some sync_id)
                collector_id caps)
              (λ _.
                Preserves-modify (retry_done x row (payload_of row.payload_json))
                  (retry_done-IsKeyed W i x row (payload_of row.payload_json))))
            (λ exc. Preserves-modify (retry_failed x row exc) (retry_failed-IsKeyed W i x row exc))

  retry_rows-IsKeyed :
      (caps : Option CoreCapabilities) (sync_id : String) (rows : List FailedUpload)
      → Preserves (IsKeyed W i) (retry_rows service version x caps sync_id rows)
  unfolding retry_rows
  retry_rows-IsKeyed caps sync_id [] = record { at = λ e w. w }
  retry_rows-IsKeyed caps sync_id (row ∷ rows) =
      Preserves-bind (retry_row_upload-IsKeyed caps sync_id row)
        (λ _. retry_rows-IsKeyed caps sync_id rows)

  pub retry_due_uploads-IsKeyed :
      (caps : Option CoreCapabilities) (sync_id : String)
      → Preserves (IsKeyed W i) (retry_due_uploads service version x caps sync_id)
  unfolding retry_due_uploads
  retry_due_uploads-IsKeyed caps sync_id = record {
    at = λ e w. (retry_rows-IsKeyed caps sync_id _).at e w;
  }

  on_batch_error-IsKeyed :
      (batch : List NormalizedDocument) (exc : Exc)
      → Preserves (IsKeyed W i) (on_batch_error service version x batch exc)
  on_batch_error-IsKeyed batch exc = by exc
    where
      queued :
          (exc : Exc) (e : Export)
          → IsKeyed W i e
          → IsKeyed W i (batch_failed service version x batch exc e)
      queued exc e w = (
        λ p.
            (record_failed_batch-Recorded x e.summary.sync_id batch exc (is_retryable_api_error exc)
              _ (w.0 p)).well_formed,
        record_failed_batch-same (λ (e : Export). e.summary.sync_id) (λ e s ids. refl) x _ batch exc
              _ _
            ∙ w.1,
      )

      by : (exc : Exc) → Preserves (IsKeyed W i) (on_batch_error service version x batch exc)
      by missing_batch_endpoint = record { at = λ e w. w }
      by (request_error m) = record { at = queued (request_error m) }
      by (http_status_error m) = record { at = queued (http_status_error m) }
      by (value_error m) = record { at = queued (value_error m) }
      by (permission_error m) = record { at = queued (permission_error m) }
      by (key_error m) = record { at = queued (key_error m) }
      by (os_error m) = record { at = queued (os_error m) }
      by (startup_error m) = record { at = queued (startup_error m) }

  upload_batch-IsKeyed :
      (caps : Option CoreCapabilities) (source_id sync_id : String)
      (batch : List NormalizedDocument)
      → Preserves (IsKeyed W i) (upload_batch service version x caps source_id sync_id batch)
  unfolding upload_batch
  upload_batch-IsKeyed caps source_id sync_id batch = record {
    at = λ e w. (attempt e.collector_id).at e w;
  }
    where
      count : Export → Export
      count e = record e { uploaded_bytes = e.uploaded_bytes + sum_of (λ d. d.size_bytes) batch }

      attempt :
          (collector_id : Option String)
          → Preserves (IsKeyed W i) (
              try_except
                (on_world (
                    batch_upload_documents service version x.project_id source_id
                      (map to_core_document_payload batch)
                      (some sync_id)
                      collector_id
                      caps)
                  >> modify count)
                (on_batch_error service version x batch))
      attempt collector_id =
          Preserves-try_except
            (Preserves-bind
              (upload-IsKeyed source_id (map to_core_document_payload batch) (some sync_id)
                collector_id caps)
              (λ _. Preserves-modify count (λ e w. w)))
            (on_batch_error-IsKeyed batch)

  pub upload_batches-IsKeyed :
      (caps : Option CoreCapabilities) (source_id sync_id : String)
      (batches : List (List NormalizedDocument))
      → Preserves (IsKeyed W i) (upload_batches service version x caps source_id sync_id batches)
  unfolding upload_batches
  upload_batches-IsKeyed caps source_id sync_id [] = record { at = λ e w. w }
  upload_batches-IsKeyed caps source_id sync_id (batch ∷ batches) =
      Preserves-bind (upload_batch-IsKeyed caps source_id sync_id batch)
        (λ _. upload_batches-IsKeyed caps source_id sync_id batches)
