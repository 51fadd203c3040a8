-- ===== src/Core/Pipeline.antt =====
-- core/pipeline.py: `run_sync`.
pub mod Memory
pub mod Effects
pub mod Identity
pub mod Runs
pub mod DryRuns
use ops_incident_collector.Prelude.{
  ℕ, String, Bool, false, not, ◌||◌, Option, none, some, List, [], ◌∷◌, ◌++◌, ◌+◌, ◌-◌, ◌/◌, max,
  length, keep, non_empty, ltb, truthy?, one_of, Exc, Action, Result, ok, raise, throw, lift, gets,
  modify, try_except, ◌>>=◌, ◌>>◌, if◌then◌else◌,
}
use ops_incident_collector.Core.Json.{Value, text, number, object, field, end}
use ops_incident_collector.Core.Models.{NormalizedDocument, SyncSummary, new_summary}
use ops_incident_collector.Core.Machine.{System, Machine}
use ops_incident_collector.Core.Collecting.{SyncRequest, Sync, take_items}
use ops_incident_collector.Core.Targets.{Sink, or_empty, build_exporter, export_to}
use ops_incident_collector.Config.Settings.{AppSettings}
use ops_incident_collector.State.Store.{
  SqliteStore, upsert_file_record, save_source_checkpoint, record_sync_run,
}
use ops_incident_collector.State.Uploads.{failed_upload_queue_depth}
use ops_incident_collector.Processors.PathPolicy.{ensure_path_allowed}
use ops_incident_collector.Receivers.Filesystem.{discover_files}
use ops_incident_collector.Exporters.ExportState.{describe}

abbrev pub is_failed : List String → NormalizedDocument → Bool
is_failed failed_external_ids d = one_of failed_external_ids d.external_id

abbrev pub relative_or_path : NormalizedDocument → String
relative_or_path d = if truthy? d.relative_path then or_empty d.relative_path else d.path

-- One of the two loops that write the files' rows.
unfoldable pub mark_documents :
    (now : ℕ)
    → (source_name last_status : String) → (last_error : Option String) → List NormalizedDocument
    → SqliteStore
    → SqliteStore
unfolding upsert_file_record
mark_documents now source_name last_status last_error [] s = s
mark_documents now source_name last_status last_error (d ∷ ds) s =
    mark_documents now source_name last_status last_error ds (
      upsert_file_record now source_name d.path (relative_or_path d) d.checksum d.size_bytes
        d.modified_at last_status last_error s)

abbrev pub on_state : (ℕ → SqliteStore → SqliteStore) → Sync → Sync
on_state f s = record s {
  machine = record s.machine {
    world = record s.machine.world { store = f s.machine.world.clock s.machine.world.store };
  };
}

module _ (system : System) (settings : AppSettings) (request : SyncRequest) where
  abbrev pub synced_documents : Sync → List NormalizedDocument
  synced_documents s = keep (λ d. not (is_failed s.failed_external_ids d)) s.documents

  abbrev pub count_synced : ℕ → Sync → Sync
  count_synced uploaded_bytes s =
      let n = length (synced_documents s) + s.summary.retry_succeeded in
      record s {
        summary = record s.summary {
          documents_synced = n;
          files_uploaded = n;
          bytes_uploaded = uploaded_bytes;
        };
      }

  -- The two loops over the documents, those that were uploaded first.
  abbrev pub mark_all : Sync → Sync
  mark_all s =
      on_state
        (λ now store.
          mark_documents now request.source_name "failed" (some "upload failed; queued for retry")
            (keep (is_failed s.failed_external_ids) s.documents)
            (mark_documents now request.source_name "synced" none (synced_documents s) store))
        s

  unfoldable pub close_counts : Sync → Sync
  unfolding failed_upload_queue_depth
  close_counts s = record s {
    summary = record s.summary {
      failed_uploads =
          max s.summary.failed_uploads
            (failed_upload_queue_depth (some request.source_name) s.machine.world.store);
      checkpoint_updated = non_empty (synced_documents s) || ltb 0 s.summary.retry_succeeded;
    };
  }

  abbrev checkpoint_of : ℕ → SyncSummary → Value
  checkpoint_of now summary = object (
      field "path" (text request.path) (
        field "files_seen" (number summary.files_seen) (
          field "documents_synced" (number summary.documents_synced) (
            field "failed_uploads" (number summary.failed_uploads)
              (field "updated_at" (number now) end)))))

  abbrev pub save_checkpoint : Sync → Sync
  save_checkpoint s =
      if s.summary.checkpoint_updated
      then on_state
          (λ now. save_source_checkpoint now request.source_name (checkpoint_of now s.summary)) s
      else s

  -- `summary.duration_ms = int((monotonic() - start) * 1000)`
  abbrev pub stop_watch : ℕ → Sync → Sync
  stop_watch start s = record s {
    summary = record s.summary { duration_ms = (s.machine.world.clock - start) / 1000 };
  }

  abbrev pub record_run : String → Sync → Sync
  record_run status s = on_state (λ now. record_sync_run now s.summary status) s

  -- `record_audit_event`
  abbrev audit : Sync → Sync
  audit s = record s {
    machine = record s.machine {
      audit_log =
          s.machine.audit_log
          ++ object (
              field "event_type" (text "sync") (
                field "timestamp" (number s.machine.world.clock) (
                  field "source_name" (text request.source_name) (
                    field "path" (text request.path) (
                      field "export_target" (text request.export_target) (
                        field "files_seen" (number s.summary.files_seen)
                          (field "documents_synced" (number s.summary.documents_synced) end)))))))
            ∷ [];
    };
  }

  -- After the export.
  unfoldable pub complete : (start uploaded_bytes : ℕ) → Sync → Sync
  unfolding mark_documents close_counts failed_upload_queue_depth save_source_checkpoint
      record_sync_run
  complete start uploaded_bytes s = audit (
      record_run "completed" (
        stop_watch start
          (save_checkpoint (close_counts (mark_all (count_synced uploaded_bytes s))))))

  abbrev pub complete_dry : ℕ → Sync → Sync
  complete_dry start s = stop_watch start (record s {
    summary = record s.summary {
      documents_synced = length s.documents;
      files_uploaded = length s.documents;
      checkpoint_updated = false;
    };
  })

  unfoldable pub maybe_exporter : Result (Option Sink)
  unfolding build_exporter
  maybe_exporter =
      if request.dry_run
      then ok none
      else elim (build_exporter system settings request.export_target request.output
          request.project_id request.source_name request.source_type) [
            | ok sink ↦ ok (some sink)
            | raise e ↦ raise e
          ]

  abbrev pub conclude : ℕ → Option Sink → Action Sync (Unit {0})
  conclude start none = modify (complete_dry start)
  conclude start (some sink) = do
    documents ← gets (λ s. s.documents)
    uploaded_bytes ← export_to system sink documents
    modify (complete start uploaded_bytes)

  -- The body of the `try`.
  unfoldable pub sync_body : ℕ → Action Sync (Unit {0})
  unfolding build_exporter maybe_exporter take_items discover_files export_to complete
  sync_body start = do
    exporter ← lift maybe_exporter
    take_items system settings request
        (discover_files system.files request.path request.max_depth request.include request.exclude)
    conclude start exporter

  unfoldable pub fail_run : ℕ → Exc → Sync → Sync
  unfolding describe record_sync_run
  fail_run start exc s = record_run "failed" (
      stop_watch start (record s {
        summary = record s.summary { errors = s.summary.errors ++ describe exc ∷ [] };
      }))

  -- The handler of the exceptions.
  unfoldable pub sync_failed : ℕ → Exc → Action Sync (Unit {0})
  unfolding fail_run describe record_sync_run
  sync_failed start exc = do modify (fail_run start exc); throw exc

  abbrev pub new_sync : String → Machine → Sync
  new_sync sync_id machine = record {
    machine = machine;
    summary = new_summary sync_id request.source_name request.project_id request.export_target;
    documents = [];
    source_type = request.source_type;
    failed_external_ids = [];
  }

  -- `try: ... except Exception as exc: ...; raise`
  unfoldable pub sync_run : (sync_id : String) → Machine → Result (Unit {0}) × Sync
  unfolding sync_body sync_failed
  sync_run sync_id machine =
      try_except (sync_body machine.world.clock) (sync_failed machine.world.clock)
        (new_sync sync_id machine)

  abbrev pub summary_or_exc : Result (Unit {0}) × Sync → Result SyncSummary × Machine
  summary_or_exc (ok u, s) = (ok s.summary, s.machine)
  summary_or_exc (raise exc, s) = (raise exc, s.machine)

  -- `run_sync`; the identifier of the run is drawn by the caller.
  unfoldable pub run_sync : (sync_id : String) → Action Machine SyncSummary
  unfolding ensure_path_allowed sync_run sync_body sync_failed
  run_sync sync_id = do
    lift (
        ensure_path_allowed system.paths (system.paths.resolve request.path)
          settings.security.allow_paths)
    λ machine. summary_or_exc (sync_run sync_id machine)
