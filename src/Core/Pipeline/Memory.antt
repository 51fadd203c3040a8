-- ===== src/Core/Pipeline/Memory.antt =====
-- What core/pipeline.py's `run_sync` leaves in the state of the files of its documents.
use ops_incident_collector.Prelude.{
  ℕ, String, Bool, true, false, not, ◌&&◌, Option, none, some, List, [], ◌∷◌, ◌++◌, ◌≡◌, refl, ◌∙◌,
  ◌===◌, eq_iff, eq_refl, arith, keep, All, All-at, All-keep, All-map, Result, ok, Bool-cases, inl,
  inr, ap, subst, sym, if◌then◌else◌,
}
use ops_incident_collector.Core.Models.{SourceItem, NormalizedDocument}
use ops_incident_collector.Core.Machine.{System}
use ops_incident_collector.Core.Collecting.{SyncRequest, Sync}
use ops_incident_collector.Core.Pipeline.{
  mark_all, save_checkpoint, close_counts, count_synced, relative_or_path, mark_documents,
  is_failed, complete, synced_documents,
}
use ops_incident_collector.Config.Settings.{AppSettings}
use ops_incident_collector.State.Store.{
  SqliteStore, FileRecord, find_file, get_file_record, upsert_file_record, save_source_checkpoint,
  record_sync_run,
}
use ops_incident_collector.State.Checkpoints.{decide_item, should_process_item}
use ops_incident_collector.State.Checkpoints.Decisions.{
  get_file_record-upsert_file_record, same_time_refl,
}

-- A tree of files: the sizes and the times by relative path.
module _ (source_name : String) (size_of : String → ℕ) (time_of : String → Option ℕ) where
  -- The document has the size and the time of its file.
  abbrev pub IsOfTree : NormalizedDocument → Type 0
  IsOfTree d =
      (d.size_bytes ≡ size_of (relative_or_path d)) × (d.modified_at ≡ time_of (relative_or_path d))

  pub record Remembers (s : SqliteStore) (relative_path : String) : Type 0 where
    pub row : FileRecord
    pub found : get_file_record source_name relative_path s ≡ some row
    pub sized : row.size_bytes ≡ size_of relative_path
    pub dated : row.modified_at ≡ time_of relative_path

  module _ (now : ℕ) (last_status : String) (last_error : Option String) (d : NormalizedDocument)
      (s : SqliteStore) where
    abbrev marked : SqliteStore
    marked =
        upsert_file_record now source_name d.path (relative_or_path d) d.checksum d.size_bytes
          d.modified_at last_status last_error s

    abbrev row_of : FileRecord
    row_of = record {
      source_name = source_name;
      path = d.path;
      relative_path = relative_or_path d;
      checksum = d.checksum;
      size_bytes = d.size_bytes;
      modified_at = d.modified_at;
      last_synced_at = now;
      last_status = last_status;
      last_error = last_error;
    }

    look :
        (relative_path : String)
        → get_file_record source_name relative_path marked ≡ (
            if (source_name === source_name) && (relative_or_path d === relative_path)
            then some row_of
            else get_file_record source_name relative_path s)
    look relative_path =
        get_file_record-upsert_file_record now source_name d.path (relative_or_path d) d.checksum
          d.size_bytes d.modified_at last_status last_error s source_name relative_path

    Remembers-self : IsOfTree d → Remembers marked (relative_or_path d)
    Remembers-self t = record {
      row = row_of;
      found =
          look (relative_or_path d) ∙ rw (eq_refl source_name, eq_refl (relative_or_path d)) refl;
      sized = t.0;
      dated = t.1;
    }

    Remembers-other :
        (relative_path : String)
        → IsOfTree d
        → Remembers s relative_path
        → Remembers marked relative_path
    Remembers-other p t r = elim (Bool-cases (relative_or_path d === p)) [
      | inl e ↦
          subst (Remembers marked) (ground (arith, eq_iff (relative_or_path d) p))
            (Remembers-self t)
      | inr f ↦ record {
        row = r.row;
        found = look p ∙ rw (eq_refl source_name, f) r.found;
        sized = r.sized;
        dated = r.dated;
      }
    ]

  module _ (now : ℕ) (last_status : String) (last_error : Option String) where
    mark_documents-Remembers :
        (ds : List NormalizedDocument) (s : SqliteStore) (relative_path : String)
        → All IsOfTree ds
        → Remembers s relative_path
        → Remembers (mark_documents now source_name last_status last_error ds s) relative_path
    unfolding mark_documents
    mark_documents-Remembers [] s p t r = r
    mark_documents-Remembers (d ∷ ds) s p t r =
        mark_documents-Remembers ds (marked now last_status last_error d s) p t.1
          (Remembers-other now last_status last_error d s p t.0 r)

    mark_documents-All :
        (ds : List NormalizedDocument) (s : SqliteStore)
        → All IsOfTree ds
        → All
            (λ d.
              Remembers
                (mark_documents now source_name last_status last_error ds s)
                (relative_or_path d))
            ds
    unfolding mark_documents
    mark_documents-All [] s t = tt
    mark_documents-All (d ∷ ds) s t = (
      mark_documents-Remembers ds (marked now last_status last_error d s) (relative_or_path d) t.1
          (Remembers-self now last_status last_error d s t.0),
      mark_documents-All ds (marked now last_status last_error d s) t.1,
    )

  remembered-skipped :
      (sha256 : Result String) (s : SqliteStore) (item : SourceItem)
      → item.size_bytes ≡ size_of item.relative_path
      → item.modified_at ≡ time_of item.relative_path
      → Remembers s item.relative_path
      → should_process_item sha256 s source_name item
        ≡ ok (record { should_process = false; checksum = none; reason = "mtime_size_unchanged" })
  unfolding should_process_item decide_item get_file_record
  remembered-skipped sha256 s item z t r =
      rw (r.found, r.sized, r.dated, z, t, same_time_refl (time_of item.relative_path))
        (ground arith)

-- What holds of the elements that pass a test and of those that do not holds of all.
All-split {ℓ κ} :
    {A : Type ℓ} (P : A → Type κ) (test : A → Bool) (xs : List A)
    → All P (keep (λ x. not (test x)) xs)
    → All P (keep test xs)
    → All P xs
All-split P test [] h k = tt
All-split P test (x ∷ xs) h k = by (test x) (All-split P test xs) h k
  where
    by :
        (b : Bool)
        → (All P (keep (λ x. not (test x)) xs) → All P (keep test xs) → All P xs)
        → All P (if not b then x ∷ keep (λ x. not (test x)) xs else keep (λ x. not (test x)) xs)
        → All P (if b then x ∷ keep test xs else keep test xs)
        → P x × All P xs
    by true rest h k = (k.0, rest h k.1)
    by false rest h k = (h.0, rest h.1 k)

module _ (system : System) (settings : AppSettings) (request : SyncRequest) where
  save_checkpoint-files :
      (s : Sync)
      → (save_checkpoint system settings request s).machine.world.store.files
        ≡ s.machine.world.store.files
  unfolding save_source_checkpoint
  save_checkpoint-files s = elim (Bool-cases s.summary.checkpoint_updated) [
    | inl t ↦ rw t refl
    | inr f ↦ rw f refl
  ]

  module _ (start uploaded_bytes : ℕ) (s : Sync) where
    abbrev completed : SqliteStore
    completed = (complete system settings request start uploaded_bytes s).machine.world.store

    abbrev all_marked : SqliteStore
    all_marked = (mark_all system settings request s).machine.world.store

    complete-files : completed.files ≡ all_marked.files
    unfolding complete record_sync_run
    complete-files = save_checkpoint-files (
        close_counts system settings request (
          mark_all system settings request (count_synced system settings request uploaded_bytes s)))

    all_remembered :
        (size_of : String → ℕ) (time_of : String → Option ℕ)
        → All (IsOfTree request.source_name size_of time_of) s.documents
        → All
            (λ d. Remembers request.source_name size_of time_of all_marked (relative_or_path d))
            s.documents
    all_remembered size_of time_of t =
        let now = s.machine.world.clock in
        let name = request.source_name in
        let failed = keep (is_failed s.failed_external_ids) s.documents in
        let synced = synced_documents system settings request s in
        let tree = IsOfTree name size_of time_of in
        let first = mark_documents now name "synced" none synced s.machine.world.store in
        All-split _ (is_failed s.failed_external_ids) s.documents
          (All-map (λ d. Remembers name size_of time_of first (relative_or_path d)) _
            (λ d r.
              mark_documents-Remembers name size_of time_of now "failed"
                (some "upload failed; queued for retry") failed first (relative_or_path d)
                (All-keep tree (is_failed s.failed_external_ids) s.documents t) r)
            synced
            (mark_documents-All name size_of time_of now "synced" none synced s.machine.world.store
              (All-keep tree (λ d. not (is_failed s.failed_external_ids d)) s.documents t)))
          (mark_documents-All name size_of time_of now "failed"
            (some "upload failed; queued for retry") failed first
            (All-keep tree (is_failed s.failed_external_ids) s.documents t))

    -- After a run has completed, a file is skipped without a look at its content whose size and time
    -- are those that a document of the run had under its relative path, whether the document was
    -- uploaded or not; the documents are as the files of one tree.
    pub complete-should_process_item :
        (size_of : String → ℕ) (time_of : String → Option ℕ)
        → All (IsOfTree request.source_name size_of time_of) s.documents
        → (before : List NormalizedDocument) (d : NormalizedDocument)
          (after : List NormalizedDocument) (sha256 : Result String) (item : SourceItem)
        → s.documents ≡ before ++ d ∷ after
        → item.relative_path ≡ relative_or_path d
        → item.size_bytes ≡ size_of item.relative_path
        → item.modified_at ≡ time_of item.relative_path
        → should_process_item sha256 completed request.source_name item
          ≡ ok (record { should_process = false; checksum = none; reason = "mtime_size_unchanged" })
    unfolding get_file_record
    complete-should_process_item size_of time_of t before d after sha256 item split e z m =
        let marked : String → Type 0 = Remembers request.source_name size_of time_of all_marked in
        let r =
          All-at (λ d. marked (relative_or_path d)) before d after
            (subst (All (λ d. marked (relative_or_path d))) split
              (all_remembered size_of time_of t)) in
        remembered-skipped request.source_name size_of time_of sha256 completed item z m (record {
          row = r.row;
          found =
              ap (find_file request.source_name item.relative_path) complete-files
              ∙ ap (λ p. find_file request.source_name p all_marked.files) e
              ∙ r.found;
          sized = subst (λ p. r.row.size_bytes ≡ size_of p) (sym e) r.sized;
          dated = subst (λ p. r.row.modified_at ≡ time_of p) (sym e) r.dated;
        })
