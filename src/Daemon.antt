-- ===== src/Daemon.antt =====
-- daemon/service.py: `DaemonService`, without its two HTTP servers and its log. The readiness of the
-- state database is taken for granted, and its path for writable.
pub mod Cycles
pub mod Health
pub mod Startup
use ops_incident_collector.Prelude.{
  ℕ, String, Bool, true, false, not, ◌&&◌, ◌||◌, Option, none, some, List, [], ◌∷◌, ◌++◌, ◌+◌, ◌-◌,
  ltb, leb, ◌==◌, one_of, non_empty, ◌<>◌, truthy, truthy?, Action, Result, ok, raise,
  startup_error, pure, throw, lift, gets, modify, try_except, Exc, ◌>>=◌, ◌>>◌, if◌then◌else◌,
}
use ops_incident_collector.Core.Json.{Value}
use ops_incident_collector.Core.Models.{SyncSummary}
use ops_incident_collector.Core.Machine.{System, Machine}
use ops_incident_collector.Core.Collecting.{SyncRequest}
use ops_incident_collector.Core.Targets.{api_token_required_message, or_empty}
use ops_incident_collector.Core.Pipeline.{run_sync}
use ops_incident_collector.Config.Settings.{AppSettings, SourceConfig, resolve_token}
use ops_incident_collector.State.Uploads.{failed_upload_queue_depth}
use ops_incident_collector.Adapters.Http.{World}
use ops_incident_collector.Adapters.Client.{health}
use ops_incident_collector.Processors.PathPolicy.{ensure_path_allowed}
use ops_incident_collector.Exporters.ExportState.{describe}

-- The totals that something is added to; a duration is in microseconds.
pub record Totals : Type 0 where
  pub files_seen : ℕ
  pub files_synced : ℕ
  pub files_skipped : ℕ
  pub documents_synced : ℕ
  pub failed_uploads : ℕ
  pub sync_duration : ℕ

pub record DaemonRuntimeState : Type 0 where
  pub running : Bool
  pub permanent_error : Bool
  pub last_successful_sync : Option ℕ
  pub last_failed_sync : Option ℕ
  pub last_sync_status : Option String
  pub last_error : Option String
  pub last_summary : List SyncSummary
  pub core_reachable : Option Bool
  pub state_db_writable : Bool
  pub cycles_completed : ℕ
  pub totals : Totals

pub record Daemon : Type 0 where
  pub machine : Machine
  pub state : DaemonRuntimeState
  -- `summaries` of the cycle that runs.
  pub summaries : List SyncSummary

abbrev pub new_state : DaemonRuntimeState
new_state = record {
  running = false;
  permanent_error = false;
  last_successful_sync = none;
  last_failed_sync = none;
  last_sync_status = none;
  last_error = none;
  last_summary = [];
  core_reachable = none;
  state_db_writable = true;
  cycles_completed = 0;
  totals = record {
    files_seen = 0;
    files_synced = 0;
    files_skipped = 0;
    documents_synced = 0;
    failed_uploads = 0;
    sync_duration = 0;
  };
}

-- `health_payload()["status"]`
unfoldable pub health_status : Daemon → String
unfolding failed_upload_queue_depth
health_status d =
    if d.state.permanent_error || not d.state.state_db_writable
    then "error"
    else if ltb 0 (failed_upload_queue_depth none d.machine.world.store)
        || (elim d.state.last_failed_sync [ none ↦ false | some t ↦ true ])
        || (elim d.state.core_reachable [ none ↦ false | some b ↦ not b ])
    then "degraded"
    else "ok"

-- `_apply_summary`
abbrev pub add_summary : SyncSummary → Totals → Totals
add_summary summary t = record t {
  files_seen = t.files_seen + summary.files_seen;
  files_synced = t.files_synced + summary.files_uploaded;
  files_skipped = t.files_skipped + summary.files_skipped;
  documents_synced = t.documents_synced + summary.documents_synced;
  failed_uploads = t.failed_uploads + summary.failed_uploads;
}

-- The file system below `Path.exists` is an argument, and so are the identifiers that are drawn.
module _ (system : System) (exists : String → Bool) (draw : ℕ → String)
    (settings : AppSettings) where
  unfoldable pub validate_sources : List SourceConfig → Result (Unit {0})
  unfolding ensure_path_allowed
  validate_sources [] = ok tt
  validate_sources (source ∷ sources) =
      if not (exists source.path)
      then raise (startup_error ("source path does not exist: " <> source.path))
      else elim (ensure_path_allowed system.paths (system.paths.resolve source.path)
          settings.security.allow_paths) [
            | raise e ↦ raise (startup_error (describe e))
            | ok u ↦ validate_sources sources
          ]

  unfoldable pub validate_api : Result (Unit {0})
  unfolding resolve_token
  validate_api =
      if settings.security.require_confirmation_for_upload
        && not settings.daemon.allow_unattended_upload
      then raise (
          startup_error
            "daemon API upload requires security.require_confirmation_for_upload=false or daemon.allow_unattended_upload=true")
      else if not (truthy? settings.api.base_url)
      then raise (startup_error "daemon API upload requires api.base_url")
      else if not (truthy? settings.project_id)
      then raise (startup_error "daemon API upload requires project.id")
      else if settings.api.auth_required
          && not (truthy? (resolve_token system.environment settings.api))
      then raise (startup_error api_token_required_message)
      else ok tt

  abbrev pub and_api : Result (Unit {0}) → Result (Unit {0})
  unfolding validate_api
  and_api (raise e) = raise e
  and_api (ok u) = if one_of ("api" ∷ []) settings.daemon.export_target then validate_api else ok tt

  unfoldable pub validate_startup : Result (Unit {0})
  unfolding validate_sources validate_api and_api
  validate_startup =
      if not (non_empty settings.sources)
      then raise (startup_error "daemon requires at least one configured source")
      else if not
          (one_of ("api" ∷ "jsonl" ∷ "sqlite" ∷ "console" ∷ []) settings.daemon.export_target)
      then raise
          (startup_error ("unsupported daemon export target: " <> settings.daemon.export_target))
      else if one_of ("jsonl" ∷ "sqlite" ∷ []) settings.daemon.export_target
          && not (truthy? settings.daemon.output_path)
      then raise (
          startup_error (
            "daemon export target " <> settings.daemon.export_target
            <> " requires daemon.output_path"))
      else and_api (validate_sources settings.sources)

  -- The arguments that `_sync_source` gives to `run_sync`.
  unfoldable pub sync_request : SourceConfig → SyncRequest
  sync_request source = record {
    path = source.path;
    export_target = settings.daemon.export_target;
    project_id = settings.project_id;
    source_name =
        if truthy? settings.daemon.source_name
        then or_empty settings.daemon.source_name
        else source.name;
    output = settings.daemon.output_path;
    dry_run = settings.sync.dry_run;
    force = false;
    no_redact = not settings.security.redact_secrets;
    max_depth = settings.daemon.max_depth;
    source_type = if truthy source.kind then source.kind else settings.daemon.source_type;
    include = [];
    exclude = [];
    max_files = none;
  }

  abbrev pub synced : Daemon → Result SyncSummary × Machine → Result (Unit {0}) × Daemon
  synced d (raise e, m) = (raise e, record d { machine = m })
  synced d (ok summary, m) = (
    ok tt,
    record d {
      machine = m;
      summaries = d.summaries ++ summary ∷ [];
      state = record d.state { totals = add_summary summary d.state.totals };
    },
  )

  unfoldable pub sync_source : SourceConfig → Action Daemon (Unit {0})
  unfolding run_sync sync_request
  sync_source source d =
      synced d
        (run_sync system settings (sync_request source) (draw d.machine.world.clock) d.machine)

  unfoldable pub sync_sources : List SourceConfig → Action Daemon (Unit {0})
  unfolding sync_source
  sync_sources [] = pure tt
  sync_sources (source ∷ sources) = do sync_source source; sync_sources sources

  abbrev pub reached : Daemon → Result Value × World → Daemon
  reached d (ok v, w) = record d {
    machine = record d.machine { world = w };
    state = record d.state { core_reachable = some true };
  }
  reached d (raise e, w) = record d {
    machine = record d.machine { world = w };
    state = record d.state { core_reachable = some false };
  }

  -- `_refresh_core_reachable`
  unfoldable pub refresh_core_reachable : Daemon → Daemon
  unfolding health resolve_token
  refresh_core_reachable d =
      if not (truthy? settings.api.base_url)
      then record d { state = record d.state { core_reachable = none } }
      else reached d (
          health
            (system.connect (or_empty settings.api.base_url)
              (resolve_token system.environment settings.api))
            system.collector_version d.machine.world)

  abbrev pub settle : Result (Unit {0}) × Daemon → Daemon
  unfolding describe
  settle (ok u, d) = record d {
    state = record d.state {
      last_successful_sync = some d.machine.world.clock;
      last_summary = d.summaries;
      last_sync_status = some "success";
    };
  }
  settle (raise e, d) = record d {
    state = record d.state {
      last_failed_sync = some d.machine.world.clock;
      last_error = some (describe e);
      last_sync_status = some "failed";
    };
  }

  abbrev pub end_cycle : (started : ℕ) → Daemon → Daemon
  end_cycle started d = record d {
    state = record d.state {
      cycles_completed = d.state.cycles_completed + 1;
      totals = record d.state.totals {
        sync_duration = d.state.totals.sync_duration + (d.machine.world.clock - started);
      };
    };
  }

  -- `_run_cycle`
  unfoldable pub run_cycle : Daemon → Daemon
  unfolding refresh_core_reachable sync_sources settle
  run_cycle d =
      let e = refresh_core_reachable d in
      end_cycle e.machine.world.clock
        (settle (sync_sources settings.sources (record e { summaries = [] })))

  -- The arguments of the constructor override the settings.
  abbrev pub is_last : (max_cycles : Option ℕ) → (run_once : Bool) → Daemon → Bool
  is_last none run_once d = run_once
  is_last (some n) run_once d = leb n d.state.cycles_completed || run_once

  -- The loop of `run`, on what the waits for the stop event tell: whether it is set. The list is the
  -- part of the run that is looked at, and when it ends the daemon still runs.
  unfoldable pub run_loop :
      (max_cycles : Option ℕ) → (run_once : Bool) → List Bool → Daemon → Bool × Daemon
  unfolding run_cycle
  run_loop max_cycles run_once [] d = (true, d)
  run_loop max_cycles run_once (stop ∷ waits) d =
      let next = run_cycle d in
      let rest = run_loop max_cycles run_once waits next in
      if is_last max_cycles run_once next || stop then (false, next) else rest

  abbrev pub stop_running : Bool × Daemon → Result Bool × Daemon
  stop_running (true, d) = (ok true, d)
  stop_running (false, d) = (ok false, record d { state = record d.state { running = false } })

  -- `run`; `stopped` tells whether the stop event is set before the first cycle, and the result
  -- whether the daemon still runs.
  unfoldable pub run :
      (max_cycles : Option ℕ) (run_once stopped : Bool) → List Bool → Daemon → Result Bool × Daemon
  unfolding validate_startup refresh_core_reachable run_loop
  run max_cycles run_once stopped waits d =
      let e = refresh_core_reachable d in
      let ready = record e { state = record e.state { running = true } } in
      let looped = run_loop max_cycles run_once waits ready in
      elim validate_startup [
        | raise error ↦ (raise error, d)
        | ok u ↦ stop_running (if stopped then (false, ready) else looped)
      ]
