-- ===== src/Queue.antt =====
-- opsincident_collector/queue.py: the commands on the queue of failed uploads.
pub mod Clearing
pub mod Sources
use ops_incident_collector.Prelude.{
  ℕ, String, Bool, true, false, not, ◌||◌, ◌&&◌, Option, none, some, List, [], ◌∷◌, ◌++◌, ◌-◌, ◌*◌,
  map, non_empty, length, ◌===◌, truthy, truthy?, Action, Result, ok, raise, value_error, pure,
  throw, gets, modify, lift, ◌>>=◌, ◌>>◌, if◌then◌else◌,
}
use ops_incident_collector.Core.Models.{SyncSummary, new_summary}
use ops_incident_collector.Core.Targets.{api_token_required_message, or_empty, new_export}
use ops_incident_collector.Config.Settings.{AppSettings, SourceConfig, Environment, resolve_token}
use ops_incident_collector.State.Store.{SqliteStore, record_sync_run}
use ops_incident_collector.State.Uploads.{
  QueueStatus, failed_upload_queue_status, get_due_failed_uploads, failed_upload_queue_depth,
  clear_failed_uploads_before,
}
use ops_incident_collector.Adapters.Http.{Service, World}
use ops_incident_collector.Exporters.IncidentopsApi.{export_documents}
use ops_incident_collector.Exporters.ExportState.{Exporter, Export}

-- `_source_type_for`
unfoldable pub source_type_for : List SourceConfig → String → String
source_type_for [] source_name = "filesystem"
source_type_for (source ∷ sources) source_name =
    if source.name === source_name then source.kind else source_type_for sources source_name

-- What the loop of `retry_queue` changes.
pub record Retry : Type 0 where
  pub world : World
  pub summaries : List SyncSummary

-- What the command returns.
pub record QueueReport : Type 0 where
  pub summaries : List SyncSummary
  pub queue : QueueStatus

-- `get_queue_status`
unfoldable pub get_queue_status : AppSettings → SqliteStore → QueueStatus
unfolding failed_upload_queue_status
get_queue_status settings s = failed_upload_queue_status settings.sync.retry_count s

-- The client is made anew for each source, from the address and the token.
module _ (environment : Environment) (connect : String → Option String → Service) (version : String)
    (settings : AppSettings) (draw : ℕ → String) where
  unfoldable pub retry_service : Service
  unfolding resolve_token
  retry_service = connect (or_empty settings.api.base_url) (resolve_token environment settings.api)

  unfoldable pub retry_exporter : (project_id source : String) → Exporter
  unfolding source_type_for
  retry_exporter project_id source = record {
    project_id = project_id;
    collector_name = settings.collector.name;
    collector_environment = settings.collector.environment;
    source_name = source;
    source_type = source_type_for settings.sources source;
    retry_count = settings.sync.retry_count;
    retry_backoff_seconds = settings.sync.retry_backoff_seconds;
  }

  abbrev pub retry_export : (project_id source : String) → Retry → Export
  retry_export project_id source s =
      new_export settings.sync.batch_size
        (new_summary (draw (length s.summaries)) source (some project_id) "api") s.world

  -- After the export of a source.
  unfoldable pub finish_source : String → Export → Retry → Retry
  unfolding failed_upload_queue_depth record_sync_run
  finish_source source e s =
      let summary : SyncSummary = record e.summary {
        failed_uploads = failed_upload_queue_depth (some source) e.world.store;
      } in
      record {
        world = record e.world {
          store = record_sync_run e.world.clock summary "completed" e.world.store;
        };
        summaries = s.summaries ++ summary ∷ [];
      }

  abbrev pub conclude_source : String → Retry → Result ℕ × Export → Result (Unit {0}) × Retry
  conclude_source source s (ok bytes, e) = (ok tt, finish_source source e s)
  conclude_source source s (raise exc, e) = (raise exc, record s { world = e.world })

  -- One source with due rows.
  unfoldable pub retry_due_source : (project_id source : String) → Action Retry (Unit {0})
  unfolding export_documents retry_service retry_exporter finish_source
  retry_due_source project_id source s = conclude_source source s (
      export_documents retry_service version (retry_exporter project_id source) []
        (retry_export project_id source s))

  abbrev pub is_passed : String → Bool
  is_passed source = not (truthy source) || (source === "<unknown>")

  -- One round of the loop.
  unfoldable pub retry_source : (project_id source : String) → Action Retry (Unit {0})
  unfolding get_due_failed_uploads retry_due_source
  retry_source project_id source = if is_passed source then pure tt else do
    due ←
        gets
          (λ s. get_due_failed_uploads s.world.clock source settings.sync.retry_count s.world.store)
    if non_empty due then retry_due_source project_id source else pure tt

  unfoldable pub retry_sources : (project_id : String) → List String → Action Retry (Unit {0})
  unfolding retry_source
  retry_sources project_id [] = pure tt
  retry_sources project_id (source ∷ sources) = do
    retry_source project_id source
    retry_sources project_id sources

  abbrev pub sources_of : Option String → SqliteStore → List String
  sources_of source_name s =
      if truthy? source_name
      then or_empty source_name ∷ []
      else map (λ e. e.0) (get_queue_status settings s).by_source

  abbrev pub project_of : Option String → Option String
  project_of project_id = if truthy? project_id then project_id else settings.project_id

  abbrev pub report : Retry → QueueReport
  report s = record { summaries = s.summaries; queue = get_queue_status settings s.world.store }

  abbrev pub retry_all : (project_id : String) → Option String → Action Retry QueueReport
  retry_all project_id source_name = do
    sources ← gets (λ s. sources_of source_name s.world.store)
    retry_sources project_id sources
    gets report

  unfoldable pub retry_queue : (project_id source_name : Option String) → Action Retry QueueReport
  unfolding resolve_token get_queue_status retry_sources
  retry_queue project_id source_name =
      if not (truthy? settings.api.base_url)
      then throw (value_error "queue retry requires api.base_url")
      else if not (truthy? (project_of project_id))
      then throw (value_error "queue retry requires project.id or --project-id")
      else if settings.api.auth_required && not (truthy? (resolve_token environment settings.api))
      then throw (value_error api_token_required_message)
      else retry_all (or_empty (project_of project_id)) source_name

abbrev pub day : ℕ
day = 24 * 60 * 60 * 1_000_000

-- `clear_queue`: the rows that are left, the number of those that are gone, and the status.
unfoldable pub clear_queue :
    AppSettings → (failed_before_days now : ℕ) → SqliteStore → (ℕ × QueueStatus) × SqliteStore
unfolding clear_failed_uploads_before get_queue_status
clear_queue settings failed_before_days now s =
    let (s', cleared) = clear_failed_uploads_before (now - failed_before_days * day) s in
    ((cleared, get_queue_status settings s'), s')
