-- ===== src/Tests/Uploads.antt =====
-- The client of Core and its exporter at concrete data.
use ops_incident_collector.Prelude.{true, none, some, [], ◌∷◌, request_error}
use ops_incident_collector.Core.Json.{null}
use ops_incident_collector.Adapters.Client.{batch_upload_documents}
use ops_incident_collector.Adapters.Client.Batch.{Explains, batch_upload_documents-Explains}
use ops_incident_collector.Processors.Batcher.{batch_items}
use ops_incident_collector.Exporters.IncidentopsApi.{upload_batches}
use ops_incident_collector.Exporters.ExportState.{record_failed_batch}
use ops_incident_collector.Exporters.IncidentopsApi.Recorded.{
  Recorded, record_failed_batch-Recorded,
}
use ops_incident_collector.Exporters.IncidentopsApi.Account.{
  EndsOrAccounts, upload, upload_batches-Accounted,
}
use ops_incident_collector.State.Uploads.WellFormed.{IsWellFormed}
use ops_incident_collector.Tests.Fixtures.{refusing, failing, world, document, exporter, export}

batch_upload_documents-Explains_example :
    Explains refusing "0.1.0" world (
      batch_upload_documents refusing "0.1.0" "p" "src"
        (null ∷ [])
        (some "s")
        (some "c")
        none
        world)
batch_upload_documents-Explains_example =
    batch_upload_documents-Explains refusing "0.1.0" world "p" "src" (null ∷ []) (some "s")
      (some "c") none

empty-IsWellFormed : IsWellFormed export.world.store.failed_uploads
empty-IsWellFormed = record { ids = tt; keys = tt }

record_failed_batch-Recorded_example : Recorded exporter (document "a" ∷ document "b" ∷ []) export (
    record_failed_batch exporter "s"
      (document "a" ∷ document "b" ∷ [])
      (request_error "down")
      true
      export)
record_failed_batch-Recorded_example =
    record_failed_batch-Recorded exporter "s" (document "a" ∷ document "b" ∷ [])
      (request_error "down") true export empty-IsWellFormed

upload_batches-Accounted_example :
    EndsOrAccounts failing "0.1.0" exporter
      (upload failing "0.1.0" exporter none "src" "s")
      (batch_items (document "a" ∷ document "b" ∷ []) 1)
      (document "a" ∷ document "b" ∷ [])
      export
      (upload_batches failing "0.1.0" exporter none "src" "s"
        (batch_items (document "a" ∷ document "b" ∷ []) 1)
        export)
upload_batches-Accounted_example =
    upload_batches-Accounted failing "0.1.0" exporter none "src" "s"
      (document "a" ∷ document "b" ∷ []) 1 export empty-IsWellFormed
