-- ===== src/Core/Pipeline/Runs.antt =====
-- What core/pipeline.py's `run_sync` records of a run, and what a dry run returns.
use ops_incident_collector.Prelude.{
  ℕ, String, Bool, true, false, Option, none, some, List, [], ◌∷◌, ◌++◌, ◌≡◌, refl, keep, not,
  ◌===◌, Result, ok, raise, Exc, Action, modify, lift, try_except, ◌>>=◌, ◌>>◌, if◌then◌else◌, All,
  All-keep-not, subst, sym, ap,
}
use ops_incident_collector.Core.Models.{SyncSummary}
use ops_incident_collector.Core.Machine.{System, Machine}
use ops_incident_collector.Core.Collecting.{SyncRequest, Sync, take_items}
use ops_incident_collector.Core.Targets.{Sink, build_exporter, export_to}
use ops_incident_collector.Core.Pipeline.{
  sync_body, sync_failed, sync_run, conclude, run_sync, complete, maybe_exporter, new_sync,
  summary_or_exc, fail_run,
}
use ops_incident_collector.Core.Pipeline.Identity.{sync_body-IsOfRun}
use ops_incident_collector.State.Store.{SqliteStore, SyncRun, record_sync_run}
use ops_incident_collector.Config.Settings.{AppSettings}
use ops_incident_collector.Processors.PathPolicy.{ensure_path_allowed, is_allowed_path}
use ops_incident_collector.Exporters.ExportState.{describe}
use ops_incident_collector.Receivers.Filesystem.{discover_files}

-- The last row of the runs is that of the run, no other row is, and it has the status, and the
-- project, the target, the counts, the warnings and the errors of the summary.
pub record LastRun (status sync_id : String) (summary : SyncSummary) (s : SqliteStore)
    : Type 0 where
  pub rows : List SyncRun
  pub row : SyncRun
  pub last : s.sync_runs ≡ rows ++ row ∷ []
  pub identified : row.sync_id ≡ sync_id
  pub others : All (λ r. (r.sync_id === sync_id) ≡ false) rows
  pub stated : row.status ≡ status
  pub of_project : row.project_id ≡ summary.project_id
  pub to_target : row.export_target ≡ summary.export_target
  pub seen : row.files_seen ≡ summary.files_seen
  pub uploaded : row.files_uploaded ≡ summary.files_uploaded
  pub skipped_files : row.files_skipped ≡ summary.files_skipped
  pub synced : row.documents_synced ≡ summary.documents_synced
  pub processed : row.bytes_processed ≡ summary.bytes_processed
  pub sent_bytes : row.bytes_uploaded ≡ summary.bytes_uploaded
  pub warned : row.warnings_json ≡ summary.warnings
  pub told : row.errors_json ≡ summary.errors

pub record_sync_run-LastRun :
    (now : ℕ) (summary : SyncSummary) (status sync_id : String) (s : SqliteStore)
    → summary.sync_id ≡ sync_id
    → LastRun status sync_id summary (record_sync_run now summary status s)
unfolding record_sync_run
record_sync_run-LastRun now summary status sync_id s same = record {
  rows = keep (λ r. not (r.sync_id === summary.sync_id)) s.sync_runs;
  row = _;
  last = refl;
  identified = same;
  others =
      subst
        (λ i.
          All (λ r. (r.sync_id === i) ≡ false)
            (keep (λ r. not (r.sync_id === summary.sync_id)) s.sync_runs))
        same (All-keep-not (λ (r : SyncRun). r.sync_id === summary.sync_id) s.sync_runs);
  stated = refl;
  of_project = refl;
  to_target = refl;
  seen = refl;
  uploaded = refl;
  skipped_files = refl;
  synced = refl;
  processed = refl;
  sent_bytes = refl;
  warned = refl;
  told = refl;
}

module _ (system : System) (settings : AppSettings) (request : SyncRequest) where
  complete-LastRun :
      (start uploaded_bytes : ℕ) (s : Sync) (sync_id : String)
      → (complete system settings request start uploaded_bytes s).summary.sync_id ≡ sync_id
      → LastRun "completed" sync_id
          (complete system settings request start uploaded_bytes s).summary
          (complete system settings request start uploaded_bytes s).machine.world.store
  unfolding complete
  complete-LastRun start uploaded_bytes s sync_id =
      record_sync_run-LastRun _ _ "completed" sync_id _

  abbrev Completed : Result (Unit {0}) × Sync → Type 0
  Completed (ok u, s) = LastRun "completed" s.summary.sync_id s.summary s.machine.world.store
  Completed (raise e, s) = Unit

  module _ (start : ℕ) where
    exported :
        (s : Sync) (r : Result ℕ) (t : Sync)
        → Completed
            (((λ (_ : Sync). (r, t)) >>= λ n. modify (complete system settings request start n)) s)
    exported s (ok n) t = complete-LastRun start n t _ refl
    exported s (raise e) t = tt

    collected :
        (sink : Sink) (s : Sync) (r : Result (Unit {0})) (t : Sync)
        → Completed
            (((λ (_ : Sync). (r, t)) >> conclude system settings request start (some sink)) s)
    collected sink s (ok u) t =
        exported t (export_to system sink t.documents t).0 (export_to system sink t.documents t).1
    collected sink s (raise e) t = tt

    abbrev from_exporter : Result (Option Sink) → Action Sync (Unit {0})
    from_exporter r = lift r >>= λ exporter.
        take_items system settings request (
          discover_files system.files request.path request.max_depth request.include
            request.exclude)
        >> conclude system settings request start exporter

    chosen :
        (r : Result Sink) (s : Sync)
        → Completed (from_exporter (elim r [ ok sink ↦ ok (some sink) | raise e ↦ raise e ]) s)
    chosen (raise e) s = tt
    chosen (ok sink) s =
        let items =
          discover_files system.files request.path request.max_depth request.include
            request.exclude in
        collected sink s (take_items system settings request items s).0
          (take_items system settings request items s).1

    sync_body-Completed :
        request.dry_run ≡ false → (s : Sync) → Completed (sync_body system settings request start s)
    unfolding sync_body maybe_exporter
    sync_body-Completed w s = by request.dry_run w
      where
        sink : Result Sink
        sink =
            build_exporter system settings request.export_target request.output request.project_id
              request.source_name request.source_type

        by :
            (dry : Bool)
            → dry ≡ false
            → Completed (
                from_exporter
                  (if dry
                    then ok none
                    else elim sink [ ok sink ↦ ok (some sink) | raise e ↦ raise e ])
                  s)
        by true h = cc h
        by false h = chosen sink s

  -- The body of a run that begins with the identifier, and the state in which it ends.
  abbrev ended : String → Machine → Result (Unit {0}) × Sync
  ended sync_id machine =
      sync_body system settings request machine.world.clock
        (new_sync system settings request sync_id machine)

  -- The summary that a run returns is in the last row, that of the run, as completed; of a run that
  -- raises the last row is that of the run, as failed, with what the summary had come to when the body
  -- raised and the exception as the last error.
  abbrev pub IsLastRun : String → Machine → Result SyncSummary × Machine → Type 0
  IsLastRun sync_id machine (ok summary, m) =
      (summary.sync_id ≡ sync_id) × LastRun "completed" sync_id summary m.world.store
  IsLastRun sync_id machine (raise exc, m) =
      ((ended sync_id machine).0 ≡ raise exc)
      × LastRun "failed" sync_id
          (record (ended sync_id machine).1.summary {
            errors = (ended sync_id machine).1.summary.errors ++ describe exc ∷ [];
          })
          m.world.store

  fail_run-LastRun :
      (start : ℕ) (exc : Exc) (s : Sync) (sync_id : String)
      → s.summary.sync_id ≡ sync_id
      → LastRun "failed" sync_id
          (record s.summary { errors = s.summary.errors ++ describe exc ∷ [] })
          (fail_run system settings request start exc s).machine.world.store
  unfolding fail_run
  fail_run-LastRun start exc s sync_id same = from
    where
      r :
          LastRun "failed" sync_id
            (fail_run system settings request start exc s).summary
            (fail_run system settings request start exc s).machine.world.store
      r =
          record_sync_run-LastRun s.machine.world.clock
            (fail_run system settings request start exc s).summary "failed" sync_id
            s.machine.world.store same

      from :
          LastRun "failed" sync_id
            (record s.summary { errors = s.summary.errors ++ describe exc ∷ [] })
            (fail_run system settings request start exc s).machine.world.store
      from = record {
        rows = r.rows;
        row = r.row;
        last = r.last;
        identified = r.identified;
        others = r.others;
        stated = r.stated;
        of_project = r.of_project;
        to_target = r.to_target;
        seen = r.seen;
        uploaded = r.uploaded;
        skipped_files = r.skipped_files;
        synced = r.synced;
        processed = r.processed;
        sent_bytes = r.sent_bytes;
        warned = r.warned;
        told = r.told;
      }

  sync_run-IsLastRun :
      request.dry_run ≡ false
      → (sync_id : String) (machine : Machine)
      → IsLastRun sync_id machine (
          summary_or_exc system settings request (sync_run system settings request sync_id machine))
  unfolding sync_run sync_failed
  sync_run-IsLastRun w sync_id machine =
      handled (ended sync_id machine).0 (ended sync_id machine).1 refl
        (sync_body-Completed machine.world.clock w start)
        ((sync_body-IsOfRun system settings request sync_id machine.world.clock).at start refl)
    where
      start : Sync
      start = new_sync system settings request sync_id machine

      handled :
          (r : Result (Unit {0})) (s : Sync)
          → ended sync_id machine ≡ (r, s)
          → Completed (r, s)
          → s.summary.sync_id ≡ sync_id
          → IsLastRun sync_id machine (
              summary_or_exc system settings request (
                try_except
                  (λ (_ : Sync). (r, s))
                  (sync_failed system settings request machine.world.clock)
                  start))
      handled (ok u) s e h i =
          (i, subst (λ i. LastRun "completed" i s.summary s.machine.world.store) i h)
      handled (raise exc) s e h i = (
        ap (λ p. p.0) e,
        subst
            (λ (t : Sync).
              LastRun "failed" sync_id
                (record t.summary { errors = t.summary.errors ++ describe exc ∷ [] })
                (fail_run system settings request machine.world.clock exc s).machine.world.store)
            (sym (ap (λ p. p.1) e)) (fail_run-LastRun machine.world.clock exc s sync_id i),
      )

  -- A run on an allowed path that is no dry run leaves its own row as the last of the runs and as the
  -- only one with its identifier. If it returns, the row says that it completed, with the counts, the
  -- warnings and the errors of the summary that it returns; if it raises, the row says that it failed,
  -- with the counts and the warnings that the summary had when the body raised, and its errors with
  -- the exception after them.
  pub run_sync-IsLastRun :
      request.dry_run ≡ false
      → is_allowed_path system.paths
          (system.paths.resolve request.path)
          settings.security.allow_paths
        ≡ true
      → (sync_id : String) (machine : Machine)
      → IsLastRun sync_id machine (run_sync system settings request sync_id machine)
  unfolding run_sync ensure_path_allowed
  run_sync-IsLastRun w a sync_id machine = rw a (sync_run-IsLastRun w sync_id machine)
