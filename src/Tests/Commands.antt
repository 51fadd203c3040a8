-- ===== src/Tests/Commands.antt =====
-- The commands on the queue, and the export to Core, at concrete data.
use ops_incident_collector.Prelude.{[], List, ◌++◌, ◌∷◌, ◌+◌, ◌-◌, ◌*◌, ◌≡◌, All, length}
use mathlib.Core.List.{Perm}
use ops_incident_collector.State.Store.{FailedUpload}
use ops_incident_collector.State.Uploads.WellFormed.{IsWellFormed}
use ops_incident_collector.Exporters.IncidentopsApi.{export_documents}
use ops_incident_collector.Exporters.IncidentopsApi.Calls.{export_documents-IsWellFormed}
use ops_incident_collector.Queue.{Retry, clear_queue, day}
use ops_incident_collector.Queue.Clearing.{IsRecent, IsOld, clear_queue_lem}
use ops_incident_collector.Tests.Fixtures.{
  failing, settings, world, queued, exporter, export, document,
}

export_documents-IsWellFormed_example :
    IsWellFormed
      (export_documents failing "0.1.0" exporter
        (document "a" ∷ [])
        export).1.world.store.failed_uploads
export_documents-IsWellFormed_example =
    export_documents-IsWellFormed failing "0.1.0" exporter (document "a" ∷ []) export
      (record { ids = tt; keys = tt })

abbrev retry : Retry
retry = record { world = record world { store = queued }; summaries = [] }

clear_queue_lem_example :
    let r = clear_queue settings 1 100_000_000_000 queued in
    (gone : List FailedUpload) × Perm (r.1.failed_uploads ++ gone) queued.failed_uploads
    × All (IsRecent (100_000_000_000 - 1 * day)) r.1.failed_uploads
    × All (IsOld (100_000_000_000 - 1 * day)) gone
    × (r.0.0 ≡ length gone)
    × (r.0.1.total_count ≡ length r.1.failed_uploads)
    × (r.0.1.pending_count + r.0.1.exhausted_count ≡ r.0.1.total_count)
clear_queue_lem_example = clear_queue_lem settings 1 100_000_000_000 queued
