-- ===== src/Core/Targets.antt =====
-- core/pipeline.py: `_build_exporter`, and the exporters as `run_sync` calls them.
use ops_incident_collector.Prelude.{
  ℕ, String, false, not, ◌&&◌, ◌||◌, Option, none, some, List, [], ◌===◌, ◌<>◌, truthy?, get, put,
  Action, Result, ok, raise, value_error, if◌then◌else◌,
}
use ops_incident_collector.Core.Models.{NormalizedDocument, SyncSummary}
use ops_incident_collector.Core.Machine.{System}
use ops_incident_collector.Core.Collecting.{Sync}
use ops_incident_collector.Config.Settings.{AppSettings, resolve_token}
use ops_incident_collector.State.Store.{SqliteStore, empty_store}
use ops_incident_collector.Adapters.Http.{Service, World}
use ops_incident_collector.Exporters.Local.{export_jsonl, export_sqlite, export_console}
use ops_incident_collector.Exporters.IncidentopsApi.{export_documents}
use ops_incident_collector.Exporters.ExportState.{Exporter, Export}

-- The exporters, with what their constructors keep.
pub data Sink : Type 0 where
  jsonl_exporter sqlite_exporter : (output : String) → Sink
  console_exporter : Sink
  api_exporter : Service → (batch_size : ℕ) → Exporter → Sink

abbrev pub api_token_required_message : String
api_token_required_message =
    "IncidentOps API sync requires a token. Set INCIDENTOPS_TOKEN or configure api.token_env."

abbrev pub or_empty : Option String → String
or_empty none = ""
or_empty (some s) = s

unfoldable pub api_sink :
    System → AppSettings → (project_id source_name source_type : String) → Sink
unfolding resolve_token
api_sink system settings project_id source_name source_type =
    api_exporter
      (system.connect (or_empty settings.api.base_url)
        (resolve_token system.environment settings.api))
      settings.sync.batch_size
      (record {
        project_id = project_id;
        collector_name = settings.collector.name;
        collector_environment = settings.collector.environment;
        source_name = source_name;
        source_type = source_type;
        retry_count = settings.sync.retry_count;
        retry_backoff_seconds = settings.sync.retry_backoff_seconds;
      })

abbrev with_output : (String → Sink) → (target : String) → Option String → Result Sink
with_output sink target output =
    if truthy? output
    then ok (sink (or_empty output))
    else raise (value_error ("--output is required for " <> target <> " export"))

-- `_build_exporter`
unfoldable pub build_exporter :
    System
    → AppSettings
    → (export_target : String) → (output project_id : Option String)
    → (source_name source_type : String) → Result Sink
unfolding resolve_token api_sink
build_exporter system settings export_target output project_id source_name source_type =
    if export_target === "jsonl"
    then with_output jsonl_exporter "jsonl" output
    else if export_target === "sqlite"
    then with_output sqlite_exporter "sqlite" output
    else if export_target === "console"
    then ok console_exporter
    else if export_target === "api"
    then if not (truthy? settings.api.base_url) || not (truthy? project_id)
      then raise (value_error "API export requires configured base_url and project_id")
      else if settings.api.auth_required
          && not (truthy? (resolve_token system.environment settings.api))
      then raise (value_error api_token_required_message)
      else ok (api_sink system settings (or_empty project_id) source_name source_type)
    else raise (value_error ("unsupported export target: " <> export_target))

-- The exporter's fields when it is made, and the summary that it is given.
abbrev pub new_export : (batch_size : ℕ) → SyncSummary → World → Export
new_export batch_size summary world = record {
  world = world;
  summary = summary;
  failed_external_ids = [];
  batch_size = batch_size;
  collector_id = none;
  remote_sync_id = summary.sync_id;
  uploaded_bytes = 0;
  sync_started = false;
}

abbrev or_new : Option SqliteStore → SqliteStore
or_new none = empty_store
or_new (some s) = s

abbrev lines_of : Option (List String) → List String
lines_of none = []
lines_of (some lines) = lines

-- `exporter.export_documents(documents, summary)`, and the identifiers that it notes as failed.
unfoldable pub export_to : System → Sink → List NormalizedDocument → Action Sync ℕ
unfolding export_jsonl export_sqlite export_console export_documents get put
export_to system (jsonl_exporter output) documents s =
    let m = s.machine in
    let (bytes, lines) =
      export_jsonl system.encoder documents (lines_of (get output m.output_files)) in
    (ok bytes, record s { machine = record m { output_files = put output lines m.output_files } })
export_to system (sqlite_exporter output) documents s =
    let m = s.machine in
    let (bytes, database) =
      export_sqlite m.world.clock documents s.summary (or_new (get output m.output_databases)) in
    (
      ok bytes,
      record s { machine = record m { output_databases = put output database m.output_databases } },
    )
export_to system console_exporter documents s =
    let (bytes, printed) = export_console documents s.machine.printed in
    (ok bytes, record s { machine = record s.machine { printed = printed } })
export_to system (api_exporter service batch_size exporter) documents s =
    let (r, e) =
      export_documents service system.collector_version exporter documents
        (new_export batch_size s.summary s.machine.world) in
    (
      r,
      record s {
        machine = record s.machine { world = e.world };
        summary = e.summary;
        failed_external_ids = e.failed_external_ids;
      },
    )
