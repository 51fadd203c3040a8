-- ===== src/Exporters/IncidentopsApi/Recorded.antt =====
-- What `_record_failed_batch` of exporters/incidentops_api.py leaves in the queue.
use ops_incident_collector.Prelude.{
  ℕ, String, Bool, true, false, ◌||◌, Option, none, some, List, [], ◌∷◌, ◌++◌, ◌≡◌, refl, ◌===◌,
  eq_iff, eq_refl, one_of, All, Exc, arith, ◌∙◌,
}
use ops_incident_collector.Core.Models.{NormalizedDocument}
use ops_incident_collector.State.Store.{SqliteStore}
use ops_incident_collector.State.Uploads.{record_failed_upload, Failure}
use ops_incident_collector.State.Uploads.WellFormed.{IsWellFormed, apply-IsWellFormed, fail}
use ops_incident_collector.State.Uploads.Keyed.{view, record_failed_upload-view}
use ops_incident_collector.Exporters.ExportState.{
  Exporter, Export, add_id, failure_of, record_failed_batch,
}

abbrev pub is_some {ℓ} : {A : Type ℓ} → Option A → Bool
is_some none = false
is_some (some a) = true

-- The document of a source has a row in the queue.
abbrev pub IsQueued : SqliteStore → (source_name external_id : String) → Type 0
IsQueued s source_name external_id = is_some (view source_name external_id s.failed_uploads) ≡ true

record_failed_upload-IsQueued :
    (now : ℕ) (f : Failure) (s : SqliteStore) (source_name external_id : String)
    → IsWellFormed s.failed_uploads
    → IsQueued s source_name external_id
    → IsQueued (record_failed_upload now f s) source_name external_id
record_failed_upload-IsQueued now f s source_name external_id w q =
    rw (record_failed_upload-view now f s source_name external_id w) (ground arith)

record_failed_upload-IsQueued_self :
    (now : ℕ) (f : Failure) (s : SqliteStore)
    → IsWellFormed s.failed_uploads
    → IsQueued (record_failed_upload now f s) f.source_name f.document_external_id
record_failed_upload-IsQueued_self now f s w =
    rw
      (
        record_failed_upload-view now f s f.source_name f.document_external_id w,
        eq_refl f.source_name,
        eq_refl f.document_external_id,
      )
      refl

one_of-append :
    (i : String) (ids more : List String) → one_of (ids ++ more) i ≡ (one_of ids i || one_of more i)
one_of-append i [] more = refl
one_of-append i (j ∷ ids) more = ground (arith, one_of-append i ids more)

pub one_of-add_id :
    (i j : String) (ids : List String) → one_of (add_id i ids) j ≡ ((i === j) || one_of ids j)
unfolding add_id
one_of-add_id i j ids = ground (arith, one_of-append j ids (i ∷ []), eq_iff i j)

-- What a batch that is recorded changes is the store and the identifiers, so all else stays.
pub record_failed_batch-same {ℓ} :
    {A : Type ℓ} (f : Export → A)
    → ((e : Export) (s : SqliteStore) (ids : List String)
        → f (record e { world = record e.world { store = s }; failed_external_ids = ids }) ≡ f e)
    → (x : Exporter) (sync_id : String) (batch : List NormalizedDocument) (exc : Exc)
      (retryable : Bool) (e : Export)
    → f (record_failed_batch x sync_id batch exc retryable e) ≡ f e
unfolding record_failed_batch
record_failed_batch-same f h x sync_id [] exc retryable e = refl
record_failed_batch-same f h x sync_id (d ∷ batch) exc retryable e =
    record_failed_batch-same f h x sync_id batch exc retryable _ ∙ h e _ _

-- What recording a batch of failures changes: the queue has a row for each of its documents and
-- loses none, and the identifiers are noted.
pub record Recorded (x : Exporter) (batch : List NormalizedDocument) (e e' : Export) : Type 0 where
  pub well_formed : IsWellFormed e'.world.store.failed_uploads
  pub kept : (s i : String) → IsQueued e.world.store s i → IsQueued e'.world.store s i
  pub queued : All (λ d. IsQueued e'.world.store x.source_name d.external_id) batch
  pub noted :
      (i : String) → one_of e.failed_external_ids i ≡ true → one_of e'.failed_external_ids i ≡ true
  pub marked : All (λ d. one_of e'.failed_external_ids d.external_id ≡ true) batch
  pub same_bytes : e'.uploaded_bytes ≡ e.uploaded_bytes
  pub same_summary : e'.summary ≡ e.summary

-- From a keyed queue, a batch that failed leaves a keyed queue in which each of its documents has a
-- row and every row of before is still there; the identifiers of the batch are noted beside those of
-- before, and the bytes and the summary stay.
pub record_failed_batch-Recorded :
    (x : Exporter) (sync_id : String) (batch : List NormalizedDocument) (exc : Exc)
    (retryable : Bool) (e : Export)
    → IsWellFormed e.world.store.failed_uploads
    → Recorded x batch e (record_failed_batch x sync_id batch exc retryable e)
unfolding record_failed_batch
record_failed_batch-Recorded x sync_id [] exc retryable e w = record {
  well_formed = w;
  kept = λ s i h. h;
  queued = tt;
  noted = λ i h. h;
  marked = tt;
  same_bytes = refl;
  same_summary = refl;
}
record_failed_batch-Recorded x sync_id (d ∷ batch) exc retryable e w =
    let f : Failure = failure_of x sync_id exc retryable d in
    let store = e.world.store in
    let next : Export = record e {
      failed_external_ids = add_id d.external_id e.failed_external_ids;
      world = record e.world { store = record_failed_upload e.world.clock f store };
    } in
    let rest =
      record_failed_batch-Recorded x sync_id batch exc retryable next
        (apply-IsWellFormed e.world.clock (fail f) store w) in
    record {
      well_formed = rest.well_formed;
      kept = λ s i h. rest.kept s i (record_failed_upload-IsQueued e.world.clock f store s i w h);
      queued = (
        rest.kept x.source_name d.external_id
            (record_failed_upload-IsQueued_self e.world.clock f store w),
        rest.queued,
      );
      noted = λ i h.
          rest.noted i (rw (one_of-add_id d.external_id i e.failed_external_ids) (ground arith));
      marked = (
        rest.noted d.external_id (
            rw
              (
                one_of-add_id d.external_id d.external_id e.failed_external_ids,
                eq_refl d.external_id,
              )
              refl),
        rest.marked,
      );
      same_bytes = rest.same_bytes;
      same_summary = rest.same_summary;
    }
