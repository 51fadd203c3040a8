-- ===== src/Exporters/IncidentopsApi/Calls.antt =====
-- The queue stays keyed through the whole of `export_documents` of exporters/incidentops_api.py, and
-- the summary stays that of its run.
use ops_incident_collector.Prelude.{
  ℕ, String, Bool, ◌≡◌, refl, true, false, Option, none, some, List, Exc, Action, Preserves,
  Preserves-bind, Preserves-if, Preserves-lift, Preserves-try_except, Bool-cases, Option-cases, get,
  ◌==◌, inl, inr, try_except, ◌>>=◌, ◌>>◌, gets, modify, lift, pure, throw, ◌&&◌, Result, ok, raise,
  if◌then◌else◌,
}
use ops_incident_collector.Core.Json.{Value, Fields}
use ops_incident_collector.Core.Models.{NormalizedDocument}
use ops_incident_collector.State.Uploads.WellFormed.{IsWellFormed}
use ops_incident_collector.Adapters.Http.{Service, CoreCapabilities, get_text}
use ops_incident_collector.Adapters.Client.{
  capabilities, register_collector, register_source, create_sync, update_sync,
}
use ops_incident_collector.Adapters.Client.Store.{
  capabilities-HasStore, register_collector-HasStore, register_source-HasStore,
  create_sync-HasStore, update_sync-HasStore,
}
use ops_incident_collector.Processors.Batcher.{batch_items}
use ops_incident_collector.Exporters.IncidentopsApi.{
  retry_due_uploads, upload_batches, export_source, export_collector, collector_id_of,
  set_collector, shrink_batches, export_to_core, start_sync, finish_sync, run_export,
  report_failure, export_documents, tell_failed, tell_and_throw, start_payload, finish_payload,
  failed_payload,
}
use ops_incident_collector.Exporters.ExportState.{
  Exporter, Export, on_world, remote_id, supports_sync_lifecycle, core_finish_status,
}
use ops_incident_collector.Exporters.IncidentopsApi.Kept.{
  IsKeyed, on_world-IsKeyed, retry_due_uploads-IsKeyed, upload_batches-IsKeyed,
}

module _ (service : Service) (version : String) (x : Exporter) where
  module _ (W : Type 0) (i : String) where
    start_sync-IsKeyed :
        (caps : Option CoreCapabilities) (source_id : String) (documents : List NormalizedDocument)
        → Preserves (IsKeyed W i) (start_sync service version x caps source_id documents)
    unfolding start_sync
    start_sync-IsKeyed caps source_id documents =
        Preserves-if (supports_sync_lifecycle caps)
          (record {
            at = λ e w.
                (begin (start_payload service version x documents e) e.summary.sync_id).at e w;
          })
          (record { at = λ e w. w })
      where
        answered : String → Value → Action Export (Unit {0})
        answered sync_id response = do
          modify (λ (e : Export). record e { sync_started = true })
          remote ← lift (remote_id sync_id response)
          modify (λ e. record e { remote_sync_id = remote })

        named :
            (e : Export) (r : Result String)
            → IsKeyed W i e
            → IsKeyed W i
                ((lift r >>= λ remote.
                    modify (λ (e : Export). record e { remote_sync_id = remote }))
                  e).1
        named e (ok remote) w = w
        named e (raise exc) w = w

        begin :
            (payload : Fields) (sync_id : String)
            → Preserves (IsKeyed W i) (
                on_world (create_sync service version source_id sync_id payload caps)
                >>= answered sync_id)
        begin payload sync_id =
            Preserves-bind {f = answered sync_id}
              (on_world-IsKeyed W i (create_sync service version source_id sync_id payload caps)
                (λ s. create_sync-HasStore service version s source_id sync_id payload caps))
              (λ response. record {
                at = λ e w. named (record e { sync_started = true }) (remote_id sync_id response) w;
              })

    tell-IsKeyed :
        (caps : Option CoreCapabilities) (source_id sync_id status : String) (payload : Fields)
        → Preserves
            (IsKeyed W i)
            (on_world (update_sync service version source_id sync_id status payload caps))
    tell-IsKeyed caps source_id sync_id status payload =
        on_world-IsKeyed W i (update_sync service version source_id sync_id status payload caps)
          (λ s. update_sync-HasStore service version s source_id sync_id status payload caps)

    finish_sync-IsKeyed :
        (caps : Option CoreCapabilities) (source_id : String) (documents : List NormalizedDocument)
        → Preserves (IsKeyed W i) (finish_sync service version x caps source_id documents)
    unfolding finish_sync
    finish_sync-IsKeyed caps source_id documents =
        Preserves-if (supports_sync_lifecycle caps)
          (record {
            at = λ e w.
                (tell e.remote_sync_id (core_finish_status e.summary.failed_uploads) (
                    finish_payload service version x (core_finish_status e.summary.failed_uploads)
                      documents e)).at
                  e w;
          })
          (record { at = λ e w. w })
      where
        tell :
            (sync_id status : String) (payload : Fields)
            → Preserves (IsKeyed W i) (
                on_world (update_sync service version source_id sync_id status payload caps)
                >> pure {A = Unit {0}} tt)
        tell sync_id status payload =
            Preserves-bind (tell-IsKeyed caps source_id sync_id status payload)
              (λ _. record { at = λ e w. w })

    run_export-IsKeyed :
        (caps : Option CoreCapabilities) (source_id : String) (documents : List NormalizedDocument)
        → Preserves (IsKeyed W i) (run_export service version x caps source_id documents)
    unfolding run_export
    run_export-IsKeyed caps source_id documents =
        Preserves-bind (start_sync-IsKeyed caps source_id documents)
          (λ _. record { at = λ e w. (retries e.remote_sync_id).at e w })
      where
        uploads :
            (sync_id : String) (size : ℕ)
            → Preserves (IsKeyed W i) (do
              upload_batches service version x caps source_id sync_id (batch_items documents size)
              finish_sync service version x caps source_id documents
              gets (λ (e : Export). e.uploaded_bytes))
        uploads sync_id size =
            Preserves-bind
              (upload_batches-IsKeyed service version x W i caps source_id sync_id
                (batch_items documents size))
              (λ _.
                Preserves-bind (finish_sync-IsKeyed caps source_id documents)
                  (λ _. record { at = λ e w. w }))

        retries :
            (sync_id : String)
            → Preserves (IsKeyed W i) (do
              retry_due_uploads service version x caps sync_id
              size ← gets (λ (e : Export). e.batch_size)
              upload_batches service version x caps source_id sync_id (batch_items documents size)
              finish_sync service version x caps source_id documents
              gets (λ (e : Export). e.uploaded_bytes))
        retries sync_id =
            Preserves-bind (retry_due_uploads-IsKeyed service version x W i caps sync_id)
              (λ _. record { at = λ e w. (uploads sync_id e.batch_size).at e w })

    report_failure-IsKeyed :
        (caps : Option CoreCapabilities) (source_id : String) (documents : List NormalizedDocument)
        (exc : Exc)
        → Preserves (IsKeyed W i) (report_failure service version x caps source_id documents exc)
    unfolding report_failure
    report_failure-IsKeyed caps source_id documents exc = record {
      at = λ e w. (by (e.sync_started && supports_sync_lifecycle caps)).at e w;
    }
      where
        told :
            (sync_id : String) (payload : Fields)
            → Preserves (IsKeyed W i) (
                try_except
                  (tell_failed service version x caps source_id sync_id payload)
                  (λ _. pure tt)
                >> throw {A = ℕ} exc)
        told sync_id payload =
            Preserves-bind
              (Preserves-try_except
                (Preserves-bind (tell-IsKeyed caps source_id sync_id "failed" payload)
                  (λ _. record { at = λ e w. w }))
                (λ _. record { at = λ e w. w }))
              (λ _. record { at = λ e w. w })

        by :
            (tells : Bool)
            → Preserves (IsKeyed W i) (
                if tells
                then tell_and_throw service version x caps source_id documents exc
                else throw exc)
        by true = record {
          at = λ e w. (told e.remote_sync_id (failed_payload service version x documents e)).at e w;
        }
        by false = record { at = λ e w. w }

    export_source-IsKeyed :
        (caps : Option CoreCapabilities) (documents : List NormalizedDocument) (source_id : String)
        → Preserves (IsKeyed W i) (export_source service version x caps documents source_id)
    export_source-IsKeyed caps documents source_id = record {
      at = λ e w.
          (Preserves-try_except (run_export-IsKeyed caps source_id documents)
              (report_failure-IsKeyed caps source_id documents)).at
            (record e {
              summary = record e.summary { source_id = some source_id };
              remote_sync_id = e.summary.sync_id;
              uploaded_bytes = 0;
              sync_started = false;
            })
            w;
    }

    export_collector-IsKeyed :
        (caps : Option CoreCapabilities) (documents : List NormalizedDocument) (name : String)
        → Preserves (IsKeyed W i) (export_collector service version x caps documents name)
    export_collector-IsKeyed caps documents name = record {
      at = λ e w.
          (Preserves-bind {f = export_source service version x caps documents}
              (on_world-IsKeyed W i
                (register_source service version x.project_id x.source_name x.source_type caps)
                (λ s.
                  register_source-HasStore service version s x.project_id x.source_name
                    x.source_type caps))
              (export_source-IsKeyed caps documents)).at
            (set_collector service version x name e) w;
    }

    collector_id_of-IsKeyed :
        (collector : Value) → Preserves (IsKeyed W i) (collector_id_of service version x collector)
    collector_id_of-IsKeyed collector =
        Preserves-bind {m = lift (get_text "collector_id" collector)} (Preserves-lift _) (λ _.
          Preserves-bind {m = lift (get_text "id" collector)} (Preserves-lift _) (λ _.
            Preserves-bind {m = lift (get_text "uuid" collector)} (Preserves-lift _)
              (λ _. record { at = λ e w. w })))

    shrink_batches-IsKeyed :
        (caps : Option CoreCapabilities) (e : Export)
        → IsKeyed W i e
        → IsKeyed W i (shrink_batches service version x caps e)
    shrink_batches-IsKeyed none e w = w
    shrink_batches-IsKeyed (some c) e w = elim (Option-cases (get "max_batch_size" c.limits)) [
      | inl h ↦ rw (h, shrink_batches) w
      | inr (n, h) ↦ elim (Bool-cases (n == 0)) [
        | inl t ↦ rw (h, shrink_batches, t) w
        | inr f ↦ rw (h, shrink_batches, f) w
      ]
    ]

    export_to_core-IsKeyed :
        (documents : List NormalizedDocument) (caps : Option CoreCapabilities)
        → Preserves (IsKeyed W i) (export_to_core service version x documents caps)
    export_to_core-IsKeyed documents caps = record {
      at = λ e w.
          (Preserves-bind
              {f = λ collector.
                collector_id_of service version x collector
                >>= export_collector service version x caps documents}
              (on_world-IsKeyed W i
                (register_collector service version x.project_id x.collector_name
                  x.collector_environment caps)
                (λ s.
                  register_collector-HasStore service version s x.project_id x.collector_name
                    x.collector_environment caps))
              (λ collector.
                Preserves-bind (collector_id_of-IsKeyed collector)
                  (export_collector-IsKeyed caps documents))).at
            (shrink_batches service version x caps e) (shrink_batches-IsKeyed caps e w);
    }

    export_documents-IsKeyed :
        (documents : List NormalizedDocument)
        → Preserves (IsKeyed W i) (export_documents service version x documents)
    unfolding export_documents
    export_documents-IsKeyed documents =
        Preserves-bind
          (on_world-IsKeyed W i (capabilities service version)
            (λ s. capabilities-HasStore service version s))
          (export_to_core-IsKeyed documents)

  -- The export keeps the run that the summary is of.
  pub export_documents-sync_id :
      (i : String) (documents : List NormalizedDocument) (e : Export)
      → e.summary.sync_id ≡ i
      → (export_documents service version x documents e).1.summary.sync_id ≡ i
  export_documents-sync_id i documents e h =
      ((export_documents-IsKeyed ⊥ i documents).at e (λ p. absurd p, h)).1

  -- Whatever Core answers, and whether the export returns or raises, a queue with no two rows of one
  -- id or of one document of a source stays such a queue.
  pub export_documents-IsWellFormed :
      (documents : List NormalizedDocument) (e : Export)
      → IsWellFormed e.world.store.failed_uploads
      → IsWellFormed (export_documents service version x documents e).1.world.store.failed_uploads
  export_documents-IsWellFormed documents e w =
      ((export_documents-IsKeyed (Unit {0}) e.summary.sync_id documents).at e (λ _. w, refl)).0 tt
