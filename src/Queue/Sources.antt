-- ===== src/Queue/Sources.antt =====
-- What `retry_queue` of queue.py does for a source that is named.
use ops_incident_collector.Prelude.{
  ℕ, String, Option, List, [], ◌∷◌, ◌++◌, ◌≡◌, length, keep, ◌===◌, Result, ok, raise,
}
use ops_incident_collector.Core.Models.{SyncSummary}
use ops_incident_collector.Core.Targets.{or_empty}
use ops_incident_collector.Core.Pipeline.Runs.{LastRun}
use ops_incident_collector.Config.Settings.{AppSettings, Environment}
use ops_incident_collector.State.Store.{FailedUpload}
use ops_incident_collector.State.Uploads.{get_due_failed_uploads}
use ops_incident_collector.Adapters.Http.{Service}
use ops_incident_collector.Exporters.ExportState.{Export}
use ops_incident_collector.Exporters.IncidentopsApi.{export_documents}
use ops_incident_collector.Queue.{
  Retry, QueueReport, retry_service, retry_exporter, retry_export, project_of,
}

module _ (environment : Environment) (connect : String → Option String → Service) (version : String)
    (settings : AppSettings) (draw : ℕ → String) (project_id : Option String) (source : String)
    (s : Retry) where
  abbrev project : String
  project = or_empty (project_of environment connect version settings draw project_id)

  -- The export without documents that the command makes for the source.
  abbrev exported : Result ℕ × Export
  exported =
      export_documents (retry_service environment connect version settings draw) version
        (retry_exporter environment connect version settings draw project source) []
        (retry_export environment connect version settings draw project source s)

  -- Of a command that returns: its one new summary is that of the export, with the rows of the source
  -- that are left in the queue as the failed ones, and the last row of the runs, the only one of its
  -- identifier, has it as completed. A command that raises has the exception of the export.
  abbrev After : Result ℕ × Export → Result QueueReport × Retry → Type 0
  After p (ok r, t) =
      let left = length (keep (λ q. q.source_name === source) t.world.store.failed_uploads) in
      let summary : SyncSummary = record p.1.summary { failed_uploads = left } in
      (r.summaries ≡ s.summaries ++ summary ∷ [])
      × LastRun "completed" (draw (length s.summaries)) summary t.world.store
      × (t.world.store.failed_uploads ≡ p.1.world.store.failed_uploads)
      × (t.world.sent ≡ p.1.world.sent)
      × (r.queue.total_count ≡ length t.world.store.failed_uploads)
  After p (raise exc, t) = (p.0 ≡ raise exc) × (t.world ≡ p.1.world) × (t.summaries ≡ s.summaries)

  abbrev pub IsRetried : Result QueueReport × Retry → Type 0
  IsRetried r = After exported r

  abbrev due_rows : List FailedUpload
  due_rows = get_due_failed_uploads s.world.clock source settings.sync.retry_count s.world.store
