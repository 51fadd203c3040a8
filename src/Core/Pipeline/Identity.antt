-- ===== src/Core/Pipeline/Identity.antt =====
-- core/pipeline.py's `run_sync`: the summary stays that of the run, whatever the loop and the exporter
-- do.
use ops_incident_collector.Prelude.{
  ℕ, String, Bool, true, false, Option, none, some, List, [], ◌∷◌, ◌≡◌, ap, ◌∙◌, Result, ok, raise,
  Preserves, Preserves-bind, Bool-cases, inl, inr, gets, lift, pure, modify, ◌>>=◌, ◌>>◌,
}
use ops_incident_collector.Core.Models.{SourceItem}
use ops_incident_collector.Core.Machine.{System}
use ops_incident_collector.Core.Collecting.{
  SyncRequest, Sync, skip, add_document, is_full, take_item, take_items,
}
use ops_incident_collector.Core.Collecting.Rounds.{
  Round, failed, skipped, collected, take_item-Round,
}
use ops_incident_collector.Core.Targets.{
  Sink, jsonl_exporter, sqlite_exporter, console_exporter, api_exporter, export_to, new_export,
}
use ops_incident_collector.Core.Pipeline.{
  sync_body, conclude, complete, maybe_exporter, save_checkpoint, close_counts, mark_all,
  count_synced,
}
use ops_incident_collector.Config.Settings.{AppSettings}
use ops_incident_collector.Exporters.IncidentopsApi.Calls.{export_documents-sync_id}
use ops_incident_collector.Receivers.Filesystem.{discover_files}

module _ (system : System) (settings : AppSettings) (request : SyncRequest) (i : String) where
  abbrev pub IsOfRun : Sync → Type 0
  IsOfRun s = s.summary.sync_id ≡ i

  take_item-IsOfRun :
      (item : SourceItem) → Preserves IsOfRun (take_item system settings request item)
  unfolding skip add_document
  take_item-IsOfRun item = record {
    at = λ s h. round s h _ (take_item-Round system settings request item s);
  }
    where
      round :
          (s : Sync)
          → IsOfRun s
          → (r : Result (Unit {0}) × Sync) → Round system settings request item s r
          → IsOfRun r.1
      round s h r (failed e k) = ap (λ r. r.1.summary.sync_id) k ∙ h
      round s h r (skipped reason extension k) = ap (λ r. r.1.summary.sync_id) k ∙ h
      round s h r (collected content d a c t g k) = ap (λ r. r.1.summary.sync_id) k ∙ h

  take_items-IsOfRun :
      (items : List SourceItem) → Preserves IsOfRun (take_items system settings request items)
  unfolding take_items
  take_items-IsOfRun [] = record { at = λ s h. h }
  take_items-IsOfRun (item ∷ items) =
      Preserves-bind {m = gets (λ (s : Sync). is_full request.max_files s.summary.files_seen)}
        (record { at = λ s h. h }) (λ full. by full (take_items-IsOfRun items))
    where
      by :
          (full : Bool)
          → Preserves IsOfRun (take_items system settings request items)
          → Preserves IsOfRun (elim full [
            | true ↦ pure tt
            | false ↦
                take_item system settings request item >> take_items system settings request items
          ])
      by true h = record { at = λ s h. h }
      by false h = Preserves-bind (take_item-IsOfRun item) (λ _. h)

  export_to-IsOfRun :
      (sink : Sink) (s : Sync) → IsOfRun s → IsOfRun (export_to system sink s.documents s).1
  unfolding export_to
  export_to-IsOfRun (jsonl_exporter output) s h = h
  export_to-IsOfRun (sqlite_exporter output) s h = h
  export_to-IsOfRun console_exporter s h = h
  export_to-IsOfRun (api_exporter service batch_size x) s h =
      export_documents-sync_id service system.collector_version x i s.documents
        (new_export batch_size s.summary s.machine.world) h

  save_checkpoint-IsOfRun :
      (s : Sync) → IsOfRun s → IsOfRun (save_checkpoint system settings request s)
  save_checkpoint-IsOfRun s h = elim (Bool-cases s.summary.checkpoint_updated) [
    | inl t ↦ rw t h
    | inr f ↦ rw f h
  ]

  complete-IsOfRun :
      (start uploaded_bytes : ℕ) (s : Sync)
      → IsOfRun s
      → IsOfRun (complete system settings request start uploaded_bytes s)
  unfolding complete
  complete-IsOfRun start uploaded_bytes s h =
      save_checkpoint-IsOfRun
        (close_counts system settings request (
          mark_all system settings request (count_synced system settings request uploaded_bytes s)))
        h

  conclude-IsOfRun :
      (start : ℕ) (exporter : Option Sink)
      → Preserves IsOfRun (conclude system settings request start exporter)
  conclude-IsOfRun start none = record { at = λ s h. h }
  conclude-IsOfRun start (some sink) = record {
    at = λ s h. by (export_to system sink s.documents s) (export_to-IsOfRun sink s h);
  }
    where
      by :
          (p : Result ℕ × Sync)
          → IsOfRun p.1
          → IsOfRun ((lift p.0 >>= λ n. modify (complete system settings request start n)) p.1).1
      by (ok n, t) h = complete-IsOfRun start n t h
      by (raise e, t) h = h

  -- The whole body of a run leaves the identifier of its summary.
  pub sync_body-IsOfRun : (start : ℕ) → Preserves IsOfRun (sync_body system settings request start)
  unfolding sync_body
  sync_body-IsOfRun start = made (maybe_exporter system settings request)
    where
      made :
          (r : Result (Option Sink))
          → Preserves IsOfRun (do
            exporter ← lift r
            take_items system settings request (
                discover_files system.files request.path request.max_depth request.include
                  request.exclude)
            conclude system settings request start exporter)
      made (raise e) = record { at = λ s h. h }
      made (ok exporter) = record {
        at =
            (Preserves-bind
              (take_items-IsOfRun (
                discover_files system.files request.path request.max_depth request.include
                  request.exclude))
              (λ _. conclude-IsOfRun start exporter)).at;
      }
