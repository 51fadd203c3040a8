-- ===== src/Core/Pipeline/DryRuns.antt =====
-- What a dry run of core/pipeline.py's `run_sync` returns, and that it writes nothing.
use ops_incident_collector.Prelude.{
  ℕ, String, Bool, true, false, none, some, List, ◌≡◌, refl, inl, inr, Result-cases, Result, ok,
  raise, lift, try_except, ◌>>=◌, ◌>>◌, if◌then◌else◌, subst, ◌+◌, arith, total,
}
use ops_incident_collector.Core.Models.{SourceItem, SyncSummary}
use ops_incident_collector.Core.Machine.{System, Machine}
use ops_incident_collector.Core.Collecting.{SyncRequest, Sync, take_items}
use ops_incident_collector.Core.Collecting.Tallies.{Tallied, take_items-Tallied}
use ops_incident_collector.Core.Targets.{Sink, build_exporter}
use ops_incident_collector.Core.Pipeline.{
  sync_body, sync_failed, sync_run, conclude, run_sync, maybe_exporter, new_sync, summary_or_exc,
}
use ops_incident_collector.Core.Pipeline.Effects.{take_items-HasMachine}
use ops_incident_collector.Config.Settings.{AppSettings}
use ops_incident_collector.Processors.PathPolicy.{ensure_path_allowed}
use ops_incident_collector.Receivers.Filesystem.{discover_files}

-- The summary counts what the run has seen, and the run leaves nothing behind.
pub record IsDryRun (summary : SyncSummary) (before after : Machine) : Type 0 where
  pub untouched : after ≡ before
  pub not_updated : summary.checkpoint_updated ≡ false
  pub counted : summary.files_seen ≡ summary.files_skipped + summary.documents_synced
  pub skips : total summary.skipped_reasons ≡ summary.files_skipped
  pub kinds : total summary.source_type_counts ≡ summary.documents_synced

module _ (system : System) (settings : AppSettings) (request : SyncRequest) where
  -- On a result; an exception is no claim.
  abbrev IsDry : Machine → Result SyncSummary × Machine → Type 0
  IsDry before (ok summary, after) = IsDryRun summary before after
  IsDry before (raise e, after) = Unit

  abbrev IsDrySync : Machine → Result (Unit {0}) × Sync → Type 0
  IsDrySync before (ok u, s) = IsDryRun s.summary before s.machine
  IsDrySync before (raise e, s) = Unit

  module _ (start : ℕ) (before : Machine) where
    concluded :
        (s : Sync) (r : Result (Unit {0})) (t : Sync)
        → t.machine ≡ before
        → (r ≡ ok tt → Tallied t)
        → IsDrySync before
            (((λ (_ : Sync). (r, t)) >> conclude system settings request start none) s)
    concluded s (raise e) t h k = tt
    concluded s (ok u) t h k = record {
      untouched = h;
      not_updated = refl;
      counted = omega (arith, (k refl).seen, (k refl).documents);
      skips = (k refl).reasons;
      kinds = omega (arith, (k refl).kinds, (k refl).documents);
    }

    sync_body-IsDrySync :
        request.dry_run ≡ true
        → (s : Sync) → s.machine ≡ before
        → Tallied s
        → IsDrySync before (sync_body system settings request start s)
    unfolding sync_body maybe_exporter
    sync_body-IsDrySync d s h t = by request.dry_run d
      where
        items : List SourceItem
        items =
            discover_files system.files request.path request.max_depth request.include
              request.exclude

        sink : Result Sink
        sink =
            build_exporter system settings request.export_target request.output request.project_id
              request.source_name request.source_type

        by :
            (dry : Bool)
            → dry ≡ true
            → IsDrySync before (
                (lift (
                      if dry
                      then ok none
                      else elim sink [ ok sink ↦ ok (some sink) | raise e ↦ raise e ])
                    >>= λ exporter.
                        take_items system settings request items
                        >> conclude system settings request start exporter)
                  s)
        by false d = cc d
        by true d =
            concluded s (take_items system settings request items s).0
              (take_items system settings request items s).1
              ((take_items-HasMachine system settings request before items).at s h)
              (take_items-Tallied system settings request items s t)

  run_sync-IsDry :
      request.dry_run ≡ true
      → (sync_id : String) (machine : Machine)
      → IsDry machine (run_sync system settings request sync_id machine)
  unfolding run_sync sync_run sync_failed
  run_sync-IsDry d sync_id machine =
      elim (Result-cases (
        ensure_path_allowed system.paths (system.paths.resolve request.path)
          settings.security.allow_paths)) [
            | inr (e, h) ↦ rw h tt
            | inl (u, h) ↦ rw h (
                handled (sync_body system settings request machine.world.clock start).0
                  (sync_body system settings request machine.world.clock start).1
                  (sync_body-IsDrySync machine.world.clock machine d start refl counted))
          ]
    where
      start : Sync
      start = new_sync system settings request sync_id machine

      counted : Tallied start
      counted = record {
        seen = refl;
        reasons = refl;
        kinds = refl;
        extensions = refl;
        documents = refl;
        bytes = refl;
        redactions = refl;
      }

      handled :
          (r : Result (Unit {0})) (s : Sync)
          → IsDrySync machine (r, s)
          → IsDry machine (
              summary_or_exc system settings request (
                try_except
                  (λ (_ : Sync). (r, s))
                  (sync_failed system settings request machine.world.clock)
                  start))
      handled (ok u) s h = h
      handled (raise e) s h = tt

  returned :
      (before : Machine) (r : Result SyncSummary × Machine) (summary : SyncSummary)
      → IsDry before r
      → r.0 ≡ ok summary
      → IsDryRun summary before r.1
  returned before (ok other, after) summary h e =
      subst (λ (s : SyncSummary). IsDryRun s before after) (cc e) h
  returned before (raise exc, after) summary h e = cc e

  -- A dry run that returns leaves the state, the outputs, the audit log and the requests as they were;
  -- its summary says that the checkpoint is not updated, its files seen are those skipped and those
  -- that it would sync, and the counts by reason and by type add up to these two numbers.
  pub run_sync-IsDryRun :
      request.dry_run ≡ true
      → (sync_id : String) (machine : Machine) (summary : SyncSummary)
      → (run_sync system settings request sync_id machine).0 ≡ ok summary
      → IsDryRun summary machine (run_sync system settings request sync_id machine).1
  run_sync-IsDryRun d sync_id machine summary =
      returned machine (run_sync system settings request sync_id machine) summary
        (run_sync-IsDry d sync_id machine)
