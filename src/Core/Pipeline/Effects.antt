-- ===== src/Core/Pipeline/Effects.antt =====
-- What core/pipeline.py's `run_sync` writes and sends, by its arguments.
use ops_incident_collector.Prelude.{
  ℕ, String, Bool, true, false, Option, none, some, List, [], ◌∷◌, ◌≡◌, refl, ◌∙◌, ◌⊎◌, inl, inr,
  ◌===◌, truthy?, Bool-cases, Result-cases, Result, ok, raise, Preserves, pure, gets, lift,
  try_except, ◌>>=◌, ◌>>◌, Preserves-bind, value_error, ◌<>◌, if◌then◌else◌, ap,
}
use ops_incident_collector.Core.Models.{SourceItem}
use ops_incident_collector.Core.Machine.{System, Machine}
use ops_incident_collector.Core.Collecting.{
  SyncRequest, Sync, skip, add_document, is_full, take_item, take_items,
}
use ops_incident_collector.Core.Collecting.Rounds.{
  Round, failed, skipped, collected, take_item-Round,
}
use ops_incident_collector.Core.Targets.{
  Sink, jsonl_exporter, sqlite_exporter, console_exporter, api_exporter, build_exporter, export_to,
  or_empty,
}
use ops_incident_collector.Core.Pipeline.{
  sync_body, sync_failed, sync_run, conclude, run_sync, complete, maybe_exporter, save_checkpoint,
  close_counts, mark_all, count_synced, new_sync, summary_or_exc,
}
use ops_incident_collector.Adapters.Http.{Request}
use ops_incident_collector.Config.Settings.{AppSettings}
use ops_incident_collector.Processors.PathPolicy.{ensure_path_allowed}
use ops_incident_collector.Receivers.Filesystem.{discover_files}

module _ (system : System) (settings : AppSettings) (request : SyncRequest) where
  module _ (m : Machine) where
    abbrev pub HasMachine : Sync → Type 0
    HasMachine s = s.machine ≡ m

    take_item-HasMachine :
        (item : SourceItem) → Preserves HasMachine (take_item system settings request item)
    unfolding skip add_document
    take_item-HasMachine item = record {
      at = λ s h. round s h _ (take_item-Round system settings request item s);
    }
      where
        round :
            (s : Sync)
            → HasMachine s
            → (r : Result (Unit {0}) × Sync) → Round system settings request item s r
            → HasMachine r.1
        round s h r (failed e k) = ap (λ r. r.1.machine) k ∙ h
        round s h r (skipped reason extension k) = ap (λ r. r.1.machine) k ∙ h
        round s h r (collected content d a c t g k) = ap (λ r. r.1.machine) k ∙ h

    pub take_items-HasMachine :
        (items : List SourceItem) → Preserves HasMachine (take_items system settings request items)
    unfolding take_items
    take_items-HasMachine [] = record { at = λ s h. h }
    take_items-HasMachine (item ∷ items) =
        Preserves-bind {m = gets (λ (s : Sync). is_full request.max_files s.summary.files_seen)}
          (record { at = λ s h. h }) (λ full. by full (take_items-HasMachine items))
      where
        by :
            (full : Bool)
            → Preserves HasMachine (take_items system settings request items)
            → Preserves HasMachine (elim full [
              | true ↦ pure tt
              | false ↦
                  take_item system settings request item >> take_items system settings request items
            ])
        by true h = record { at = λ s h. h }
        by false h = Preserves-bind (take_item-HasMachine item) (λ _. h)

  -- Every exporter but that to Core, and no exporter.
  abbrev is_local : Option Sink → Bool
  is_local (some (api_exporter service batch_size x)) = false
  is_local _ = true

  abbrev is_local_result : Result Sink → Bool
  is_local_result (ok sink) = is_local (some sink)
  is_local_result (raise e) = true

  build_exporter-is_local :
      (export_target : String) (output project_id : Option String)
      (source_name source_type : String)
      → (export_target === "api") ≡ false
      → is_local_result
          (build_exporter system settings export_target output project_id source_name source_type)
        ≡ true
  unfolding build_exporter
  build_exporter-is_local t output project_id source_name source_type h =
      rw h (cases (t === "jsonl") (t === "sqlite") (t === "console") (truthy? output))
    where
      cases :
          (a b c o : Bool)
          → is_local_result (
              if a
              then (if o
                  then ok (jsonl_exporter (or_empty output))
                  else raise (value_error "--output is required for jsonl export"))
              else if b
              then (if o
                  then ok (sqlite_exporter (or_empty output))
                  else raise (value_error "--output is required for sqlite export"))
              else if c
              then ok console_exporter
              else raise (value_error ("unsupported export target: " <> t)))
            ≡ true
      cases true b c true = refl
      cases true b c false = refl
      cases false true c true = refl
      cases false true c false = refl
      cases false false true o = refl
      cases false false false o = refl

  abbrev pub IsQuiet : Type 0
  IsQuiet = (request.dry_run ≡ true) ⊎ ((request.export_target === "api") ≡ false)

  abbrev is_local_maybe : Result (Option Sink) → Bool
  is_local_maybe (ok exporter) = is_local exporter
  is_local_maybe (raise e) = true

  maybe_exporter-is_local : IsQuiet → is_local_maybe (maybe_exporter system settings request) ≡ true
  unfolding maybe_exporter
  maybe_exporter-is_local (inl d) = rw d refl
  maybe_exporter-is_local (inr n) = elim (Bool-cases request.dry_run) [
    | inl d ↦ rw d refl
    | inr w ↦ rw w (
        built _ (
          build_exporter-is_local request.export_target request.output request.project_id
            request.source_name request.source_type n))
  ]
    where
      built :
          (r : Result Sink)
          → is_local_result r ≡ true
          → is_local_maybe (elim r [ ok sink ↦ ok (some sink) | raise e ↦ raise e ]) ≡ true
      built (ok sink) h = h
      built (raise e) h = refl

  module _ (sent : List Request) where
    abbrev HasSent : Sync → Type 0
    HasSent s = s.machine.world.sent ≡ sent

    save_checkpoint-HasSent :
        (s : Sync) → HasSent s → HasSent (save_checkpoint system settings request s)
    save_checkpoint-HasSent s h = elim (Bool-cases s.summary.checkpoint_updated) [
      | inl t ↦ rw t h
      | inr f ↦ rw f h
    ]

    complete-HasSent :
        (start uploaded_bytes : ℕ) (s : Sync)
        → HasSent s
        → HasSent (complete system settings request start uploaded_bytes s)
    unfolding complete
    complete-HasSent start uploaded_bytes s h =
        save_checkpoint-HasSent
          (close_counts system settings request (
            mark_all system settings request
              (count_synced system settings request uploaded_bytes s)))
          h

    conclude-HasSent :
        (start : ℕ) (exporter : Option Sink)
        → is_local exporter ≡ true
        → Preserves HasSent (conclude system settings request start exporter)
    unfolding export_to
    conclude-HasSent start none l = record { at = λ s h. h }
    conclude-HasSent start (some (jsonl_exporter output)) l = record {
      at = λ s h. complete-HasSent start _ _ h;
    }
    conclude-HasSent start (some (sqlite_exporter output)) l = record {
      at = λ s h. complete-HasSent start _ _ h;
    }
    conclude-HasSent start (some console_exporter) l = record {
      at = λ s h. complete-HasSent start _ _ h;
    }
    conclude-HasSent start (some (api_exporter service batch_size x)) l = cc l

    take_items-HasSent :
        (items : List SourceItem) → Preserves HasSent (take_items system settings request items)
    take_items-HasSent items = record {
      at = λ s h.
          ap (λ (m : Machine). m.world.sent) ((take_items-HasMachine s.machine items).at s refl)
          ∙ h;
    }

    sync_body-HasSent :
        IsQuiet → (start : ℕ) → Preserves HasSent (sync_body system settings request start)
    unfolding sync_body
    sync_body-HasSent q start =
        made (maybe_exporter system settings request) (maybe_exporter-is_local q)
      where
        made :
            (r : Result (Option Sink))
            → is_local_maybe r ≡ true
            → Preserves HasSent (do
              exporter ← lift r
              take_items system settings request (
                  discover_files system.files request.path request.max_depth request.include
                    request.exclude)
              conclude system settings request start exporter)
        made (raise e) l = record { at = λ s h. h }
        made (ok exporter) l = record {
          at =
              (Preserves-bind
                (take_items-HasSent (
                  discover_files system.files request.path request.max_depth request.include
                    request.exclude))
                (λ _. conclude-HasSent start exporter l)).at;
        }

    sync_run-HasSent :
        IsQuiet
        → (sync_id : String) (machine : Machine) → machine.world.sent ≡ sent
        → HasSent (sync_run system settings request sync_id machine).1
    unfolding sync_run sync_failed
    sync_run-HasSent q sync_id machine h =
        handled (sync_body system settings request machine.world.clock start).0
          (sync_body system settings request machine.world.clock start).1
          ((sync_body-HasSent q machine.world.clock).at start h)
      where
        start : Sync
        start = new_sync system settings request sync_id machine

        handled :
            (r : Result (Unit {0})) (s : Sync)
            → HasSent s
            → HasSent
                (try_except
                  (λ (_ : Sync). (r, s))
                  (sync_failed system settings request machine.world.clock)
                  start).1
        handled (ok u) s h = h
        handled (raise e) s h = h

  run_sync-machine :
      (sync_id : String) (machine : Machine)
      → ((run_sync system settings request sync_id machine).1 ≡ machine)
        ⊎ ((run_sync system settings request sync_id machine).1
            ≡ (sync_run system settings request sync_id machine).1.machine)
  unfolding run_sync
  run_sync-machine sync_id machine =
      elim (Result-cases (
        ensure_path_allowed system.paths (system.paths.resolve request.path)
          settings.security.allow_paths)) [
            | inr (e, h) ↦ inl (rw h refl)
            | inl (u, h) ↦ inr (rw h (ended (sync_run system settings request sync_id machine)))
          ]
    where
      ended :
          (r : Result (Unit {0}) × Sync)
          → (summary_or_exc system settings request r).1 ≡ r.1.machine
      ended (ok u, s) = refl
      ended (raise e, s) = refl

  -- A dry run, and a run that does not export to Core, sends no request, whether it returns or
  -- raises.
  pub run_sync-quiet :
      IsQuiet
      → (sync_id : String) (machine : Machine)
      → (run_sync system settings request sync_id machine).1.world.sent ≡ machine.world.sent
  run_sync-quiet q sync_id machine = elim (run_sync-machine sync_id machine) [
    | inl e ↦ ap (λ (m : Machine). m.world.sent) e
    | inr e ↦
        ap (λ (m : Machine). m.world.sent) e
        ∙ sync_run-HasSent machine.world.sent q sync_id machine refl
  ]
