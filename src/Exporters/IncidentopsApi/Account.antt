-- ===== src/Exporters/IncidentopsApi/Account.antt =====
-- No document is lost by `export_documents` of exporters/incidentops_api.py: the loop over the
-- batches uploads a document or queues it, and counts it accordingly.
use mathlib.Core.List.{Perm, flatten}
use mathlib.Core.List.Perm
use ops_incident_collector.Prelude.{
  ℕ, String, Option, some, List, [], ◌∷◌, ◌++◌, ◌+◌, ◌≡◌, refl, map, length, sum_of, Exc,
  missing_batch_endpoint, request_error, http_status_error, value_error, permission_error,
  key_error, os_error, startup_error, Action, Result, ok, raise, arith, inl, inr, ◌⊎◌, try_except,
  ◌>>◌, modify, append-nil, ap, subst, sym,
}
use ops_incident_collector.Core.Json.{Value}
use ops_incident_collector.Core.Models.{NormalizedDocument, SyncSummary}
use ops_incident_collector.Core.Payload.{to_core_document_payload}
use ops_incident_collector.State.Store.{SqliteStore}
use ops_incident_collector.State.Uploads.WellFormed.{IsWellFormed}
use ops_incident_collector.Adapters.Http.{World, Service, CoreCapabilities, is_retryable_api_error}
use ops_incident_collector.Adapters.Client.{batch_upload_documents}
use ops_incident_collector.Adapters.Client.Store.{batch_upload_documents-HasStore}
use ops_incident_collector.Exporters.IncidentopsApi.{
  upload_batch, upload_batches, batch_failed, batch_warning, on_batch_error,
}
use ops_incident_collector.Exporters.ExportState.{Exporter, Export, on_world}
use ops_incident_collector.Processors.Batcher.{batch_items}
use ops_incident_collector.Processors.Batcher.Batches.{batch_items_lem}
use ops_incident_collector.Exporters.IncidentopsApi.Recorded.{
  IsQueued, record_failed_batch-Recorded, record_failed_batch-same,
}
use ops_incident_collector.Exporters.IncidentopsApi.Fares.{
  Upload, Follows, Fared, over, took, lost, Accounted, Accounted-nil, Accounted-append,
}

module _ (service : Service) (version : String) (x : Exporter) where
  -- What the outcome of the upload makes of the state.
  abbrev outcome :
      List NormalizedDocument → Export → Result Value × World → Result (Unit {0}) × Export
  outcome batch e (ok v, w) = (
    ok tt,
    record e { world = w; uploaded_bytes = e.uploaded_bytes + sum_of (λ d. d.size_bytes) batch },
  )
  outcome batch e (raise missing_batch_endpoint, w) =
      (raise missing_batch_endpoint, record e { world = w })
  outcome batch e (raise exc, w) =
      (ok tt, batch_failed service version x batch exc (record e { world = w }))

  batch_failed-Follows :
      (batch : List NormalizedDocument) (exc : Exc) (e : Export) (w : World)
      → Follows e w (batch_failed service version x batch exc (record e { world = w }))
  batch_failed-Follows batch exc e w = record {
    sent =
        record_failed_batch-same (λ (e : Export). e.world.sent) (λ e s ids. refl) x _ batch exc _ _;
    clock =
        record_failed_batch-same (λ (e : Export). e.world.clock) (λ e s ids. refl) x _ batch exc _
          _;
    collector =
        record_failed_batch-same (λ (e : Export). e.collector_id) (λ e s ids. refl) x _ batch exc _
          _;
  }

  module _ (upload : Upload) where
    -- The run ends with the answer of a batch that Core takes no batches, or the documents are
    -- accounted for.
    abbrev pub EndsOrAccounts :
        List (List NormalizedDocument)
        → List NormalizedDocument
        → Export
        → Result (Unit {0}) × Export
        → Type 0
    EndsOrAccounts batches documents e r =
        ((r.0 ≡ raise missing_batch_endpoint)
          × (batch : List NormalizedDocument) × (f : Export) × (w : World) × (upload batch f
              ≡ (raise missing_batch_endpoint, w)))
        ⊎ ((r.0 ≡ ok tt) × Accounted upload x batches documents e r.1)

    batch_failed-Accounted :
        (batch : List NormalizedDocument) (exc : Exc) (e : Export) (w : World)
        → upload batch e ≡ (raise exc, w)
        → ¬ (exc ≡ missing_batch_endpoint)
        → w.store ≡ e.world.store
        → IsWellFormed e.world.store.failed_uploads
        → Accounted upload x
            (batch ∷ [])
            batch
            e
            (batch_failed service version x batch exc (record e { world = w }))
    batch_failed-Accounted batch exc e w u n s wf =
        let retryable = is_retryable_api_error exc in
        let next : Export = record e {
          world = w;
          summary = record e.summary {
            failed_uploads = e.summary.failed_uploads + length batch;
            warnings =
                e.summary.warnings ++ batch_warning service version x (length batch) retryable ∷ [];
          };
        } in
        let r =
          record_failed_batch-Recorded x e.summary.sync_id batch exc retryable next
            (subst (λ (t : SqliteStore). IsWellFormed t.failed_uploads) (sym s) wf) in
        let all : batch ++ [] ≡ batch = append-nil batch in
        record {
          accepted = [];
          rejected = batch;
          fared =
              subst
                (λ l.
                  Fared upload (batch ∷ []) [] l e
                    (batch_failed service version x batch exc (record e { world = w })))
                all (lost exc w u n (batch_failed-Follows batch exc e w) over);
          split = Perm.refl batch;
          bytes = omega (arith, r.same_bytes);
          failures = ap (λ (t : SyncSummary). t.failed_uploads) r.same_summary;
          queued = r.queued;
          marked = r.marked;
          kept = λ n i q. r.kept n i (subst (λ (t : SqliteStore). IsQueued t n i) (sym s) q);
          noted = r.noted;
          well_formed = r.well_formed;
        }

    outcome-EndsOrAccounts :
        (batch : List NormalizedDocument) (e : Export) (r : Result Value) (w : World)
        → upload batch e ≡ (r, w)
        → w.store ≡ e.world.store
        → IsWellFormed e.world.store.failed_uploads
        → EndsOrAccounts (batch ∷ []) batch e (outcome batch e (r, w))
    outcome-EndsOrAccounts batch e (ok v) w u s wf =
        let all : batch ++ [] ≡ batch = append-nil batch in
        inr (
          refl,
          record {
            accepted = batch;
            rejected = [];
            fared =
                subst (λ l. Fared upload (batch ∷ []) l [] e (outcome batch e (ok v, w)).1) all
                  (took v w u (record { sent = refl; clock = refl; collector = refl }) over);
            split = subst (λ l. Perm l batch) (sym all) (Perm.refl batch);
            bytes = refl;
            failures = omega arith;
            queued = tt;
            marked = tt;
            kept = λ n i q. subst (λ (t : SqliteStore). IsQueued t n i) (sym s) q;
            noted = λ i h. h;
            well_formed = subst (λ (t : SqliteStore). IsWellFormed t.failed_uploads) (sym s) wf;
          },
        )
    outcome-EndsOrAccounts batch e (raise missing_batch_endpoint) w u s wf =
        inl (refl, batch, e, w, u)
    outcome-EndsOrAccounts batch e (raise (request_error m)) w u s wf =
        inr (refl, batch_failed-Accounted batch (request_error m) e w u (λ q. cc q) s wf)
    outcome-EndsOrAccounts batch e (raise (http_status_error m)) w u s wf =
        inr (refl, batch_failed-Accounted batch (http_status_error m) e w u (λ q. cc q) s wf)
    outcome-EndsOrAccounts batch e (raise (value_error m)) w u s wf =
        inr (refl, batch_failed-Accounted batch (value_error m) e w u (λ q. cc q) s wf)
    outcome-EndsOrAccounts batch e (raise (permission_error m)) w u s wf =
        inr (refl, batch_failed-Accounted batch (permission_error m) e w u (λ q. cc q) s wf)
    outcome-EndsOrAccounts batch e (raise (key_error m)) w u s wf =
        inr (refl, batch_failed-Accounted batch (key_error m) e w u (λ q. cc q) s wf)
    outcome-EndsOrAccounts batch e (raise (os_error m)) w u s wf =
        inr (refl, batch_failed-Accounted batch (os_error m) e w u (λ q. cc q) s wf)
    outcome-EndsOrAccounts batch e (raise (startup_error m)) w u s wf =
        inr (refl, batch_failed-Accounted batch (startup_error m) e w u (λ q. cc q) s wf)

    next_batches :
        (batch more : List NormalizedDocument) (batches : List (List NormalizedDocument))
        (e f : Export) (r : Result (Unit {0})) (rest : Action Export (Unit {0}))
        → EndsOrAccounts (batch ∷ []) batch e (r, f)
        → (IsWellFormed f.world.store.failed_uploads → EndsOrAccounts batches more f (rest f))
        → EndsOrAccounts (batch ∷ batches) (batch ++ more) e (((λ _. (r, f)) >> rest) e)
    next_batches batch more batches e f (raise exc) rest h k = elim h [
      | inl ended ↦ inl ended
      | inr (done, _) ↦ cc done
    ]
    next_batches batch more batches e f (ok u) rest h k = elim h [
      | inl ended ↦ cc ended.0
      | inr (_, a) ↦ elim (k a.well_formed) [
        | inl ended ↦ inl ended
        | inr (done, b) ↦
            inr (done, Accounted-append upload x (batch ∷ []) batches batch more e f (rest f).1 a b)
      ]
    ]

  handled :
      (batch : List NormalizedDocument) (e : Export) (r : Result Value) (w : World)
      → try_except
          ((on_world {A = Value} (λ _. (r, w)))
            >> modify (λ (e : Export). record e {
              uploaded_bytes = e.uploaded_bytes + sum_of (λ d. d.size_bytes) batch;
            }))
          (on_batch_error service version x batch)
          e
        ≡ outcome batch e (r, w)
  handled batch e (ok v) w = refl
  handled batch e (raise missing_batch_endpoint) w = refl
  handled batch e (raise (request_error m)) w = refl
  handled batch e (raise (http_status_error m)) w = refl
  handled batch e (raise (value_error m)) w = refl
  handled batch e (raise (permission_error m)) w = refl
  handled batch e (raise (key_error m)) w = refl
  handled batch e (raise (os_error m)) w = refl
  handled batch e (raise (startup_error m)) w = refl

  module _ (caps : Option CoreCapabilities) (source_id sync_id : String) where
    abbrev pub upload : Upload
    upload batch e =
        batch_upload_documents service version x.project_id source_id
          (map to_core_document_payload batch) (some sync_id) e.collector_id caps e.world

    upload_batch-EndsOrAccounts :
        (batch : List NormalizedDocument) (e : Export)
        → IsWellFormed e.world.store.failed_uploads
        → EndsOrAccounts upload
            (batch ∷ [])
            batch
            e
            (upload_batch service version x caps source_id sync_id batch e)
    unfolding upload_batch
    upload_batch-EndsOrAccounts batch e wf =
        let same =
          (batch_upload_documents-HasStore service version e.world.store x.project_id source_id
              (map to_core_document_payload batch) (some sync_id) e.collector_id caps).at
            e.world refl in
        subst (EndsOrAccounts upload (batch ∷ []) batch e)
          (sym (handled batch e (upload batch e).0 (upload batch e).1))
          (outcome-EndsOrAccounts upload batch e (upload batch e).0 (upload batch e).1 refl same wf)

    upload_batches-EndsOrAccounts :
        (batches : List (List NormalizedDocument)) (e : Export)
        → IsWellFormed e.world.store.failed_uploads
        → EndsOrAccounts upload batches
            (flatten batches)
            e
            (upload_batches service version x caps source_id sync_id batches e)
    unfolding upload_batches flatten
    upload_batches-EndsOrAccounts [] e wf = inr (refl, Accounted-nil upload x e wf)
    upload_batches-EndsOrAccounts (batch ∷ batches) e wf =
        next_batches upload batch (flatten batches) batches e
          (upload_batch service version x caps source_id sync_id batch e).1
          (upload_batch service version x caps source_id sync_id batch e).0
          (upload_batches service version x caps source_id sync_id batches)
          (upload_batch-EndsOrAccounts batch e wf)
          (upload_batches-EndsOrAccounts batches
            (upload_batch service version x caps source_id sync_id batch e).1)

  -- Whatever Core answers to the batches of the documents, either the run ends, because the call of a
  -- batch raised that Core takes no batches, or it goes on and each document is accounted for: the
  -- accepted documents are those of the batches whose call returned, and the rejected ones those of
  -- the batches whose call raised, each call made after the requests of the calls before it; together
  -- they are a rearrangement of the documents. The bytes grow by the sizes of the accepted ones and
  -- the failures by the number of the rejected ones; each rejected one has a row in the queue and its
  -- identifier is noted as failed, while rows and notes of before stay.
  pub upload_batches-Accounted :
      (caps : Option CoreCapabilities) (source_id sync_id : String)
      (documents : List NormalizedDocument) (size : ℕ) (e : Export)
      → IsWellFormed e.world.store.failed_uploads
      → EndsOrAccounts
          (upload caps source_id sync_id)
          (batch_items documents size)
          documents
          e
          (upload_batches service version x caps source_id sync_id (batch_items documents size) e)
  upload_batches-Accounted caps source_id sync_id documents size e wf =
      subst
        (λ ds.
          EndsOrAccounts (upload caps source_id sync_id) (batch_items documents size) ds e (
            upload_batches service version x caps source_id sync_id (batch_items documents size) e))
        (batch_items_lem documents size).0
        (upload_batches-EndsOrAccounts caps source_id sync_id (batch_items documents size) e wf)
