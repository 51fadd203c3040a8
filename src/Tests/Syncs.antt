-- ===== src/Tests/Syncs.antt =====
-- The pipeline at the small project.
use ops_incident_collector.Prelude.{
  ℕ, String, none, some, List, [], ◌∷◌, ◌≡◌, refl, inl, false, get, All, ok,
}
use ops_incident_collector.Core.Models.{SourceItem, SyncSummary, new_summary}
use ops_incident_collector.Core.Collecting.{Sync, take_items}
use ops_incident_collector.Core.Collecting.Tallies.{Tallied, take_items-Tallied}
use ops_incident_collector.Core.Collecting.Admissions.{IsDocumentOf, take_items-IsDocumentOf}
use ops_incident_collector.Core.Pipeline.{run_sync, complete}
use ops_incident_collector.Core.Pipeline.Memory.{complete-should_process_item}
use ops_incident_collector.Core.Pipeline.Effects.{run_sync-quiet}
use ops_incident_collector.Core.Pipeline.Runs.{IsLastRun, run_sync-IsLastRun}
use ops_incident_collector.Core.Pipeline.DryRuns.{IsDryRun, run_sync-IsDryRun}
use ops_incident_collector.Processors.PathPolicy.{is_allowed_path}
use ops_incident_collector.State.Checkpoints.{should_process_item}
use ops_incident_collector.Tests.Fixtures.{
  system, settings, request, dry_request, machine, start, document,
}

abbrev item : String → ℕ → String → SourceItem
item name size extension = record {
  path = name;
  relative_path = name;
  size_bytes = size;
  modified_at = some 7;
  extension = extension;
  detected_type = none;
}

abbrev items : List SourceItem
items =
    item ".env" 5 ""
    ∷ item "app.log" 10 ".log"
    ∷ item "empty.txt" 0 ".txt"
    ∷ item "run.md" 7 ".md"
    ∷ []

goes_through : (take_items system settings request items start).0 ≡ ok tt
unfolding take_items
goes_through = refl

start-Tallied : Tallied start
unfolding get
start-Tallied = record {
  seen = refl;
  reasons = refl;
  kinds = refl;
  extensions = refl;
  documents = refl;
  bytes = refl;
  redactions = refl;
}

take_items-Tallied_example : Tallied (take_items system settings request items start).1
take_items-Tallied_example =
    take_items-Tallied system settings request items start start-Tallied goes_through

take_items-IsDocumentOf_example :
    All
      (IsDocumentOf system settings request items)
      (take_items system settings request items start).1.documents
take_items-IsDocumentOf_example =
    take_items-IsDocumentOf system settings request items start refl goes_through

abbrev after_export : Sync
after_export = record start {
  documents = document "a" ∷ document "b" ∷ [];
  failed_external_ids = "b" ∷ [];
}

complete-should_process_item_example :
    should_process_item
      (ok "zz")
      (complete system settings request 0 8 after_export).machine.world.store
      "src"
      (record (item "b" 4 ".log") { detected_type = none })
    ≡ ok (record { should_process = false; checksum = none; reason = "mtime_size_unchanged" })
complete-should_process_item_example =
    complete-should_process_item system settings request 0 8 after_export (λ path. 4)
      (λ path. some 7) ((refl, refl), ((refl, refl), tt)) (document "a" ∷ []) (document "b") []
      (ok "zz") (item "b" 4 ".log") refl refl refl refl

run_sync-quiet_example :
    (run_sync system settings dry_request "sync_1" machine).1.world.sent ≡ machine.world.sent
run_sync-quiet_example = run_sync-quiet system settings dry_request (inl refl) "sync_1" machine

run_sync-IsLastRun_example :
    IsLastRun system settings request "sync_1" machine
      (run_sync system settings request "sync_1" machine)
unfolding is_allowed_path
run_sync-IsLastRun_example = run_sync-IsLastRun system settings request refl refl "sync_1" machine

abbrev dry_summary : SyncSummary
dry_summary = record (new_summary "sync_1" "src" (some "p") "jsonl") {
  files_seen = 4;
  files_uploaded = 2;
  files_skipped = 2;
  documents_synced = 2;
  bytes_processed = 17;
  documents_normalized = 2;
  source_type_counts = ("logs", 1) ∷ ("unknown_text", 1) ∷ [];
  skipped_reasons = ("denied", 1) ∷ ("empty", 1) ∷ [];
  redaction_count = 20;
}

run_sync-IsDryRun_example :
    IsDryRun dry_summary machine (run_sync system settings dry_request "sync_1" machine).1
unfolding run_sync
run_sync-IsDryRun_example =
    run_sync-IsDryRun system settings dry_request refl "sync_1" machine dry_summary refl
